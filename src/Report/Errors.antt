-- ===== src/Report/Errors.antt =====
-- The report on connections that hang.
use upcalls.Prelude.{
  ℕ, ◌+◌, ◌≤◌, ◌<◌, ◌≡◌, ◌⊎◌, inl, inr, refl, sym, ◌∙◌, ap, Option, none, some, List, [], ◌∷◌, ◌++◌,
  arith, if◌then◌else◌, length, length-append, take, pos,
}
use upcalls.Report.{
  Conn, Filled, fill, output_of, report_of, on_error, Message, Write, send_loop, Sent, finished,
}
use upcalls.Report.Text.{Line, error_header}
use upcalls.Report.Fetch.{Read, ended, report_loop}
use upcalls.Report.Receive.{Giving}
use upcalls.Report.Print.{report_loop-ended}
use upcalls.Report.Send.{Taking, Finishes, finishes, send_text-Finishes, joined}
use upcalls.Report.Filling.{lines_of, AreShort, Holds, fresh, fresh-Holds, take-output_of}

-- A report that was sent: its size and its text, with a byte 0 behind it, which the client gets if
-- its reads do not fail.
pub record Reported (ls : List Line) (m : Message) : Type 0 where
  pub lines : ℕ
  pub rest : List Write
  pub sent : m.body ≡ finished (error_header ++ joined (take lines ls) ++ (0 ∷ [])) rest
  pub announced : m.announced ≡ length (error_header ++ joined (take lines ls) ++ (0 ∷ []))
  pub in_buffer : m.announced ≤ 8192
  pub complete : (take lines ls ≡ ls) ⊎ (8160 < m.announced)
  pub printed :
      (rs : List Read)
      → Giving rs
      → m.announced ≤ length rs
      → report_loop m.announced [] (error_header ++ joined (take lines ls) ++ (0 ∷ [])) rs
        ≡ ended (error_header ++ joined (take lines ls) ++ (0 ∷ []))

report_of-Reported :
    (ls : List Line) (f : Filled) (behind : List ℕ) (ws : List Write)
    → Holds error_header ls f
    → Taking ws
    → 8192 ≤ length ws
    → (m : Message) × (report_of f behind ws ≡ some m) × Reported ls m
report_of-Reported ls f behind ws h t w = (
  record {
    announced = f.cursor + 1;
    body = send_loop (take (f.cursor + 1) (output_of f.text behind)) 0 ws [];
  },
  ap
      (λ b.
        if b
        then some (record {
          announced = f.cursor + 1;
          body = send_loop (take (f.cursor + 1) (output_of f.text behind)) 0 ws [];
        })
        else none)
      h.some_there,
  go (send_text-Finishes (text ++ (0 ∷ [])) ws [] t (omega (arith, long)) (omega (arith, long, w))),
)
  where
    text : List ℕ
    text = error_header ++ joined (take h.m ls)

    long : length ((error_header ++ joined (take h.m ls)) ++ (0 ∷ [])) ≡ f.cursor + 1
    long = omega (
      arith,
      length-append (error_header ++ joined (take h.m ls)) (0 ∷ []),
      h.cursor_is,
      ap length h.text_is,
    )

    output :
        take (f.cursor + 1) (output_of f.text behind)
        ≡ (error_header ++ joined (take h.m ls)) ++ (0 ∷ [])
    output =
        take-output_of f.text behind f.cursor h.cursor_is h.inside
        ∙ ap (λ x. x ++ (0 ∷ [])) h.text_is

    go :
        {n : ℕ}
        → Finishes
            ((error_header ++ joined (take h.m ls)) ++ (0 ∷ []))
            ws
            n
            (send_loop ((error_header ++ joined (take h.m ls)) ++ (0 ∷ [])) 0 ws [])
        → Reported ls (record {
          announced = f.cursor + 1;
          body = send_loop (take (f.cursor + 1) (output_of f.text behind)) 0 ws [];
        })
    go k = from_finishes k refl
      where
        from_finishes :
            {n : ℕ} {o : Sent}
            → Finishes ((error_header ++ joined (take h.m ls)) ++ (0 ∷ [])) ws n o
            → send_loop ((error_header ++ joined (take h.m ls)) ++ (0 ∷ [])) 0 ws [] ≡ o
            → Reported ls (record {
              announced = f.cursor + 1;
              body = send_loop (take (f.cursor + 1) (output_of f.text behind)) 0 ws [];
            })
        from_finishes (finishes rest t' h') e = record {
          lines = h.m;
          rest = rest;
          sent = ap (λ x. send_loop x 0 ws []) output ∙ e;
          announced = sym long;
          in_buffer = omega (arith, h.inside);
          complete = elim h.complete [ inl c ↦ inl c | inr c ↦ inr (omega (arith, c)) ];
          printed = λ rs g l.
              report_loop-ended (f.cursor + 1) []
                ((error_header ++ joined (take h.m ls)) ++ (0 ∷ [])) rs g (omega (arith, long))
                (omega (arith, long)) (omega (arith, long, l));
        }

-- If some connection is left, if each line has at most 31 bytes, which is the room that the code
-- keeps, and no write fails and there are enough of them, then `on_error` sends the header, the lines
-- of the first connections in order, and a byte 0, with the right size before it. All
-- connections are reported, or the text has more than 8159 bytes; nothing behind the buffer is read;
-- and the loop of `do_error_report` gets what was sent, however its reads split it.
pub on_error-Reported :
    (fd : ℕ) (conns : List (Option Conn)) (behind : List ℕ) (ws : List Write)
    → 0 < length (lines_of 3 conns)
    → AreShort (lines_of 3 conns)
    → Taking ws
    → 8192 ≤ length ws
    → (m : Message) × (on_error (pos fd) conns behind ws ≡ some m) × Reported (lines_of 3 conns) m
unfolding on_error
on_error-Reported fd conns behind ws z s t w =
    report_of-Reported (lines_of 3 conns) (fill 3 conns fresh) behind ws (fresh-Holds 3 conns z s) t
      w
