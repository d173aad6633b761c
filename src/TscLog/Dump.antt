-- ===== src/TscLog/Dump.antt =====
-- What is logged is what `main` writes, up to the room that there is.
use upcalls.Prelude.{
  ℕ, zero, suc, ◌+◌, ◌*◌, ◌^◌, ◌≤◌, ◌<◌, ◌≡◌, refl, ◌∙◌, true, false, some, List, [], ◌∷◌, ◌++◌,
  arith, lt→ltb, le→ltb, ne→==, eq→==, length, length-append, append-nil, append_assoc, take-nil,
  take-le, take, u64-id,
}
use upcalls.TscLog.{Entry, Log, write_at, tsclog, tsclog_all, empty_log, dump}

-- The buffer holds `es` from address `a` on.
abbrev pub Holds : (ℕ → Entry) → ℕ → List Entry → Type 0
Holds m a [] = Unit {0}
Holds m a (e ∷ es) = (m a ≡ e) × Holds m (a + 48) es

Holds-write :
    (m : ℕ → Entry) (a at : ℕ) (e : Entry) (es : List Entry)
    → Holds m a es
    → a + 48 * length es ≤ at
    → Holds (write_at at e m) a es
Holds-write m a at e [] h l = tt
Holds-write m a at e (x ∷ xs) (h, hs) l =
    (rw (ne→== a at (λ f. absurd (omega arith))) h, Holds-write m (a + 48) at e xs hs (omega arith))

Holds-snoc :
    (m : ℕ → Entry) (a at : ℕ) (e : Entry) (es : List Entry)
    → Holds m a es
    → at ≡ a + 48 * length es
    → Holds (write_at at e m) a (es ++ (e ∷ []))
Holds-snoc m a at e [] h l = (rw (eq→== a at (omega arith)) refl, tt)
Holds-snoc m a at e (x ∷ xs) (h, hs) l =
    (rw (ne→== a at (λ f. absurd (omega arith))) h, Holds-snoc m (a + 48) at e xs hs (omega arith))

module _ (start : ℕ) where
  -- The log holds `ks`, and has room for `r` more.
  record Stored (ks : List Entry) (r : ℕ) (l : Log) : Type 0 where
    held : Holds l.entries start ks
    cur_is : l.cur ≡ start + 48 * length ks
    end_is : l.end_at ≡ start + 48 * (length ks + r)
    inside : start + 48 * (length ks + r) + 48 < 2 ^ 64

  tsclog-room :
      (e : Entry) (ks : List Entry) (r : ℕ) (l : Log)
      → Stored ks (suc r) l
      → Stored (ks ++ (e ∷ [])) r (tsclog 4 e l) × ((tsclog 4 e l).overflow ≡ l.overflow)
  unfolding tsclog
  tsclog-room e ks r l v =
      rw
        (
          u64-id (l.cur + 48) (omega (arith, v.cur_is, v.inside)),
          le→ltb l.end_at (l.cur + 48) (omega (arith, v.cur_is, v.end_is)),
        )
        (
          record {
            held = Holds-snoc l.entries start l.cur e ks v.held v.cur_is;
            cur_is = omega (arith, v.cur_is, length-append ks (e ∷ []));
            end_is = omega (arith, v.end_is, length-append ks (e ∷ []));
            inside = omega (arith, v.inside, length-append ks (e ∷ []));
          },
          refl,
        )

  tsclog-full :
      (e : Entry) (ks : List Entry) (l : Log)
      → Stored ks zero l
      → tsclog 4 e l ≡ record l { overflow = true }
  unfolding tsclog
  tsclog-full e ks l v =
      rw
        (
          u64-id (l.cur + 48) (omega (arith, v.cur_is, v.inside)),
          lt→ltb l.end_at (l.cur + 48) (omega (arith, v.cur_is, v.end_is)),
        )
        refl

  -- What a log that holds `ks`, with room for `r` more, becomes when `es` are logged.
  record Grown (ks : List Entry) (r : ℕ) (es : List Entry) (before after : Log) : Type 0 where
    held : Holds after.entries start (ks ++ take r es)
    cur_is : after.cur ≡ start + 48 * length (ks ++ take r es)
    dropped : r < length es → after.overflow ≡ true
    kept : length es ≤ r → after.overflow ≡ before.overflow
    sticky : before.overflow ≡ true → after.overflow ≡ true

  Grown-full :
      (e : Entry) {es ks : List Entry} {l l' : Log}
      → Grown ks zero es (record l { overflow = true }) l'
      → Grown ks zero (e ∷ es) l l'
  Grown-full e g = record {
    held = g.held;
    cur_is = g.cur_is;
    dropped = λ _. g.sticky refl;
    kept = λ h. absurd (omega arith);
    sticky = λ _. g.sticky refl;
  }

  Grown-room :
      (e : Entry) (es ks : List Entry) (r : ℕ) {l l₁ l' : Log}
      → l₁.overflow ≡ l.overflow
      → Grown (ks ++ (e ∷ [])) r es l₁ l'
      → Grown ks (suc r) (e ∷ es) l l'
  Grown-room e es ks r same g = record {
    held = rw⁻¹ (append_assoc ks (e ∷ []) (take r es)) g.held;
    cur_is = rw⁻¹ (append_assoc ks (e ∷ []) (take r es)) g.cur_is;
    dropped = λ h. g.dropped (omega arith);
    kept = λ h. g.kept (omega arith) ∙ same;
    sticky = λ h. g.sticky (same ∙ h);
  }

  tsclog_all-Grown :
      (es : List Entry) (ks : List Entry) (r : ℕ) (l : Log)
      → Stored ks r l
      → Grown ks r es l (tsclog_all es l)
  unfolding tsclog_all
  tsclog_all-Grown [] ks r l v = record {
    held = rw (take-nil {A = Entry} r, append-nil ks) v.held;
    cur_is = rw (take-nil {A = Entry} r, append-nil ks) v.cur_is;
    dropped = λ h. absurd (omega arith);
    kept = λ _. refl;
    sticky = λ h. h;
  }
  tsclog_all-Grown (e ∷ es) ks zero l v = rw (tsclog-full e ks l v) (
      Grown-full e (
        tsclog_all-Grown es ks zero (record l { overflow = true })
          (record { held = v.held; cur_is = v.cur_is; end_is = v.end_is; inside = v.inside })))
  tsclog_all-Grown (e ∷ es) ks (suc r) l v =
      Grown-room e es ks r (tsclog-room e ks r l v).1
        (tsclog_all-Grown es (ks ++ (e ∷ [])) r (tsclog 4 e l) (tsclog-room e ks r l v).0)

dump_lem :
    (fuel : ℕ) (l : Log) (a : ℕ) (es : List Entry)
    → Holds l.entries a es
    → l.cur ≡ a + 48 * length es
    → length es ≤ fuel
    → dump fuel a l ≡ some es
unfolding dump
dump_lem zero l a [] h c f = rw (eq→== a l.cur (omega arith)) refl
dump_lem zero l a (e ∷ es) h c f = absurd (omega arith)
dump_lem (suc fuel) l a [] h c f = rw (eq→== a l.cur (omega arith)) refl
dump_lem (suc fuel) l a (e ∷ es) (h, hs) c f =
    rw
      (
        ne→== a l.cur (λ k. absurd (omega arith)),
        h,
        dump_lem fuel l (a + 48) es hs (omega arith) (omega arith),
      )
      refl

-- For a log set up with room for `n` entries whose buffer, with one entry more, ends below 2^64:
-- after any sequence of `tsclog_4` calls, the loop of `main` ends within `n` turns and writes the
-- first `n` entries logged, in order; `overflow` is set exactly if there were more.
pub dump-tsclog_all :
    (start n : ℕ) (m : ℕ → Entry) (es : List Entry)
    → start + 48 * n + 48 < 2 ^ 64
    → (dump n start (tsclog_all es (empty_log start n m)) ≡ some (take n es))
      × (n < length es → (tsclog_all es (empty_log start n m)).overflow ≡ true)
      × (length es ≤ n → (tsclog_all es (empty_log start n m)).overflow ≡ false)
dump-tsclog_all start n m es h =
    (dump_lem n _ start (take n es) (g.held) (g.cur_is) (take-le n es), g.dropped, g.kept)
  where
    g : Grown start [] n es (empty_log start n m) (tsclog_all es (empty_log start n m))
    g = tsclog_all-Grown start es [] n (empty_log start n m) (record {
      held = tt;
      cur_is = omega arith;
      end_is = omega (arith, u64-id (start + 48 * n) (omega arith));
      inside = omega arith;
    })
