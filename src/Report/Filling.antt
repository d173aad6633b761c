-- ===== src/Report/Filling.antt =====
-- How the error report fills its buffer.
use upcalls.Prelude.{
  ℕ, zero, suc, ◌+◌, ◌-◌, ◌≤◌, ◌<◌, ◌≡◌, ◌⊎◌, inl, inr, refl, sym, ◌∙◌, ap, subst, true, false,
  Option, none, some, List, [], ◌∷◌, ◌++◌, append-nil, append_assoc, arith, ltb, if-cases, ltb→lt,
  ltb→le, length, length-append, take, take-length-append, replicate,
}
use upcalls.Report.{Conn, conn_line, Filled, add_line, fill, output_of}
use upcalls.Report.Text.{Line, error_header}
use upcalls.Report.Send.{joined}

-- The lines of the connections that are there, from descriptor `i` on.
abbrev pub lines_of : ℕ → List (Option Conn) → List Line
lines_of i [] = []
lines_of i (none ∷ cs) = lines_of (suc i) cs
lines_of i (some c ∷ cs) = conn_line i c ∷ lines_of (suc i) cs

-- No line is longer than the room that `on_error` keeps.
abbrev pub AreShort : List Line → Type 0
AreShort [] = Unit {0}
AreShort (l ∷ ls) = (length l ≤ 31) × AreShort ls

-- What the loop leaves: the text `start` and the first `m` of the lines, all of them or until the
-- text is too long for one more; all inside the buffer.
pub record Holds (start : List ℕ) (ls : List Line) (g : Filled) : Type 0 where
  pub m : ℕ
  pub some_there : g.dangling ≡ true
  pub text_is : g.text ≡ start ++ joined (take m ls)
  pub cursor_is : g.cursor ≡ length g.text
  pub inside : g.cursor ≤ 8191
  pub complete : (take m ls ≡ ls) ⊎ (8160 < g.cursor)

-- A line that fits.
add_line-text :
    (l : Line) (f : Filled) → length l ≤ 31 → f.cursor ≤ 8160 → (add_line l f).text ≡ f.text ++ l
add_line-text l f short room =
    ap (λ t. f.text ++ t) (whole (8191 - f.cursor) l (omega (arith, short, room)))
  where
    whole : (n : ℕ) (xs : List ℕ) → length xs ≤ n → take n xs ≡ xs
    whole zero [] h = refl
    whole zero (x ∷ xs) h = absurd (omega (arith, h))
    whole (suc n) [] h = refl
    whole (suc n) (x ∷ xs) h = ap (λ t. x ∷ t) (whole n xs (omega (arith, h)))

one_more :
    {start : List ℕ} {l : Line} {ls : List Line} {g : Filled}
    → Holds (start ++ l) ls g
    → Holds start (l ∷ ls) g
one_more {start} {l} {ls} h = record {
  m = suc h.m;
  some_there = h.some_there;
  text_is = h.text_is ∙ append_assoc start l (joined (take h.m ls));
  cursor_is = h.cursor_is;
  inside = h.inside;
  complete = elim h.complete [ inl e ↦ inl (ap (λ t. l ∷ t) e) | inr e ↦ inr e ];
}

-- A state in the middle of the report.
record IsFilling (f : Filled) : Type 0 where
  some_there : f.dangling ≡ true
  cursor_is : f.cursor ≡ length f.text
  room : f.cursor ≤ 8160

fill-Holds :
    (i : ℕ) (cs : List (Option Conn)) (cursor : ℕ) (text : List ℕ)
    → cursor ≡ length text
    → cursor ≤ 8160
    → AreShort (lines_of i cs)
    → Holds text
        (lines_of i cs)
        (fill i cs (record { dangling = true; cursor = cursor; text = text }))
unfolding fill
fill-Holds i [] k text e r s = record {
  m = 0;
  some_there = refl;
  text_is = sym (append-nil text);
  cursor_is = e;
  inside = omega (arith, r);
  complete = inl refl;
}
fill-Holds i (none ∷ cs) k text e r s = fill-Holds (suc i) cs k text e r s
fill-Holds i (some c ∷ cs) k text e r (short, s) =
    if-cases (Holds text (conn_line i c ∷ lines_of (suc i) cs)) (ltb 8160 (k + length l))
      (λ b. record {
        m = 1;
        some_there = refl;
        text_is = added ∙ ap (λ t. text ++ t) (sym (append-nil l));
        cursor_is = long;
        inside = omega (arith, r, short);
        complete = inr (ltb→lt _ _ b);
      })
      (λ b. one_more (
        subst
          (λ t.
            Holds t (lines_of (suc i) cs)
              (fill (suc i) cs (add_line l (record { dangling = true; cursor = k; text = text }))))
          added
          (fill-Holds (suc i) cs (k + length l) (text ++ take (8191 - k) l) long (ltb→le _ _ b) s)))
  where
    l : Line
    l = conn_line i c

    added : text ++ take (8191 - k) (conn_line i c) ≡ text ++ conn_line i c
    added =
        add_line-text (conn_line i c) (record { dangling = true; cursor = k; text = text }) short r

    long : k + length (conn_line i c) ≡ length (text ++ take (8191 - k) (conn_line i c))
    long = omega (arith, e, ap length added, length-append text (conn_line i c))

-- The loop starts with no text; the header is there once there is a connection.
abbrev pub fresh : Filled
fresh = record { dangling = false; cursor = 0; text = [] }

pub fresh-Holds :
    (i : ℕ) (cs : List (Option Conn))
    → 0 < length (lines_of i cs)
    → AreShort (lines_of i cs)
    → Holds error_header (lines_of i cs) (fill i cs fresh)
unfolding fill
fresh-Holds i [] z s = absurd (omega (arith, z))
fresh-Holds i (none ∷ cs) z s = fresh-Holds (suc i) cs z s
fresh-Holds i (some c ∷ cs) z s =
    fill-Holds i (some c ∷ cs) (length error_header) error_header refl (omega arith) s

replicate_pos : (k : ℕ) → 0 < k → replicate {A = ℕ} k 0 ≡ 0 ∷ replicate {A = ℕ} (k - 1) 0
replicate_pos zero h = absurd (omega (arith, h))
replicate_pos (suc k) h = ap (λ j. 0 ∷ replicate {A = ℕ} j 0) same
  where
    same : k ≡ suc k - 1
    same = omega arith

-- The text and the byte behind it.
pub take-output_of :
    (text behind : List ℕ) (k : ℕ)
    → k ≡ length text
    → k ≤ 8191
    → take (k + 1) (output_of text behind) ≡ text ++ (0 ∷ [])
take-output_of text behind k e l =
    ap (λ t. take (k + 1) (text ++ (t ++ behind)))
      (replicate_pos (8192 - length text) (omega (arith, e, l)))
    ∙ ap (take (k + 1)) (sym (append_assoc text (0 ∷ []) after))
    ∙ ap (λ j. take j ((text ++ (0 ∷ [])) ++ after)) long
    ∙ take-length-append (text ++ (0 ∷ [])) after
  where
    after : List ℕ
    after = replicate (8192 - length text - 1) 0 ++ behind

    long : k + 1 ≡ length (text ++ (0 ∷ []))
    long = omega (arith, e, length-append text (0 ∷ []))
