-- ===== src/Logs/Lines.antt =====
-- The lines of a stream do not depend on how it is cut into chunks.
use zju_connect_gui.Base.{
  ℕ, zero, suc, ◌≤◌, ◌<◌, ◌≡◌, ◌∙◌, refl, ap, sym, List, [], ◌∷◌, ◌++◌, Bool, true, false, none,
  some, arith, length, Bool-cases, inl, inr, if◌then◌else◌, ◌⊎◌, keep,
}
use zju_connect_gui.Logs.{
  Bytes, is_newline, split_newline, skip_newlines, add_line, take_lines, drain_lines,
}

-- The reference: every newline byte ends a line, and lines without bytes are left out.
abbrev pub has_bytes : Bytes → Bool
has_bytes [] = false
has_bytes (b ∷ bs) = true

-- A byte in front of the first line, which may be the unfinished one.
abbrev cons_line : ℕ → List Bytes × Bytes → List Bytes × Bytes
cons_line b ([], rest) = ([], b ∷ rest)
cons_line b (l ∷ ls, rest) = ((b ∷ l) ∷ ls, rest)

abbrev end_line : List Bytes × Bytes → List Bytes × Bytes
end_line (ls, rest) = ([] ∷ ls, rest)

-- The finished lines, and the unfinished rest.
unfoldable pub lines_of : Bytes → List Bytes × Bytes
lines_of [] = ([], [])
lines_of (b ∷ bs) = if is_newline b then end_line (lines_of bs) else cons_line b (lines_of bs)

abbrev pub finished : Bytes → List Bytes
finished bs = keep has_bytes (lines_of bs).0

abbrev behind_lines : List Bytes → List Bytes × Bytes → List Bytes × Bytes
behind_lines ls (ms, rest) = (ls ++ ms, rest)

-- A byte that is no newline goes in front of the first line, wherever that ends.
cons_line-behind :
    (b : ℕ) (ls : List Bytes) (r : Bytes) (t : Bytes)
    → (is_newline b ≡ false)
    → behind_lines (cons_line b (ls, r)).0 (lines_of ((cons_line b (ls, r)).1 ++ t))
      ≡ cons_line b (behind_lines ls (lines_of (r ++ t)))
unfolding lines_of
cons_line-behind b [] r t h = rw h
cons_line-behind b (l ∷ ls) r t h = refl

pub lines_of-append :
    (s t : Bytes) → lines_of (s ++ t) ≡ behind_lines (lines_of s).0 (lines_of ((lines_of s).1 ++ t))
unfolding lines_of
lines_of-append [] t = refl
lines_of-append (b ∷ s) t = elim (Bool-cases (is_newline b)) [
  | inl newline ↦ rw newline (ap end_line (lines_of-append s t))
  | inr other ↦ rw other (
      ap (cons_line b) (lines_of-append s t)
      ∙ sym (cons_line-behind b (lines_of s).0 (lines_of s).1 t other))
]

-- The rest holds no newline.
cons_line_rest :
    (b : ℕ) (ls : List Bytes) (r : Bytes)
    → is_newline b ≡ false
    → lines_of r ≡ ([], r)
    → lines_of (cons_line b (ls, r)).1 ≡ ([], (cons_line b (ls, r)).1)
unfolding lines_of
cons_line_rest b [] r h e = rw (h, e)
cons_line_rest b (l ∷ ls) r h e = e

pub lines_of_rest : (s : Bytes) → lines_of (lines_of s).1 ≡ ([], (lines_of s).1)
lines_of_rest [] = unfold lines_of in refl
lines_of_rest (b ∷ s) = elim (Bool-cases (is_newline b)) [
  | inl newline ↦ rw (lines_of_newline b s newline) (lines_of_rest s)
  | inr other ↦
      rw (lines_of_other b s other)
        (cons_line_rest b (lines_of s).0 (lines_of s).1 other (lines_of_rest s))
]
  where
    lines_of_newline :
        (b : ℕ) (s : Bytes) → is_newline b ≡ true → lines_of (b ∷ s) ≡ end_line (lines_of s)
    lines_of_newline b s h = unfold lines_of in rw h

    lines_of_other :
        (b : ℕ) (s : Bytes) → is_newline b ≡ false → lines_of (b ∷ s) ≡ cons_line b (lines_of s)
    lines_of_other b s h = unfold lines_of in rw h

-- The first line of a buffer, found by the search for a newline.
lines_of_split :
    (s : Bytes)
    → ((split_newline s ≡ none) × (lines_of s ≡ ([], s)))
      ⊎ ((l q : Bytes) × (split_newline s ≡ some (l, q))
          × (lines_of s ≡ (l ∷ (lines_of q).0, (lines_of q).1))
          × (length q < length s))
unfolding split_newline lines_of
lines_of_split [] = inl (refl, refl)
lines_of_split (b ∷ s) = elim (Bool-cases (is_newline b)) [
  | inl newline ↦ inr ([], s, rw newline, rw newline, omega arith)
  | inr other ↦ elim (lines_of_split s) [
    | inl (e1, e2) ↦ inl (rw (other, e1), rw (other, e2))
    | inr (l, q, e1, e2, shorter) ↦ inr (b ∷ l, q, rw (other, e1), rw (other, e2), omega arith)
  ]
]

skip_newlines_other : (b : ℕ) (s : Bytes) → is_newline b ≡ false → skip_newlines (b ∷ s) ≡ b ∷ s
unfolding skip_newlines
skip_newlines_other b s h = rw h

skip_newlines_lem :
    (s : Bytes)
    → (keep has_bytes (lines_of (skip_newlines s)).0 ≡ keep has_bytes (lines_of s).0)
      × ((lines_of (skip_newlines s)).1 ≡ (lines_of s).1)
      × (length (skip_newlines s) ≤ length s)
unfolding skip_newlines lines_of
skip_newlines_lem [] = (refl, refl, omega arith)
skip_newlines_lem (b ∷ s) = elim (Bool-cases (is_newline b)) [
  | inl newline ↦
      let (same, rest, shorter) = skip_newlines_lem s in
      (rw newline same, rw newline rest, rw newline (omega (arith, shorter)))
  | inr other ↦
      let e = skip_newlines_other b s other in
      (
        ap (λ t. keep has_bytes (lines_of t).0) e,
        ap (λ t. (lines_of t).1) e,
        omega (arith, ap length e),
      )
]

take_lines-none :
    (fuel : ℕ) (s : Bytes) → split_newline s ≡ none → take_lines (suc fuel) s ≡ ([], s)
unfolding take_lines
take_lines-none fuel s e = rw (e, take_lines)

take_lines-some :
    (fuel : ℕ) (s l q : Bytes)
    → split_newline s ≡ some (l, q)
    → take_lines (suc fuel) s ≡ add_line l (take_lines fuel (skip_newlines q))
unfolding take_lines
take_lines-some fuel s l q e = rw (e, take_lines)

keep-cons :
    (l : Bytes) (ls ms : List Bytes)
    → keep has_bytes ls ≡ keep has_bytes ms
    → keep has_bytes (l ∷ ls) ≡ keep has_bytes (l ∷ ms)
keep-cons [] ls ms h = h
keep-cons (b ∷ l) ls ms h = ap (λ t. (b ∷ l) ∷ t) h

-- With a round for each byte the inner loop finds every line that has bytes, and the rest.
take_lines_lem :
    (fuel : ℕ) (s : Bytes)
    → length s ≤ fuel
    → (keep has_bytes (take_lines fuel s).0 ≡ finished s) × ((take_lines fuel s).1 ≡ (lines_of s).1)
take_lines_lem zero [] h = unfold take_lines lines_of in (refl, refl)
take_lines_lem zero (b ∷ s) h = absurd (omega arith)
take_lines_lem (suc fuel) s h = elim (lines_of_split s) [
  | inl (e1, e2) ↦
      let e = take_lines-none fuel s e1 in
      (ap (λ p. keep has_bytes p.0) (e ∙ sym e2), ap (λ p. p.1) (e ∙ sym e2))
  | inr (l, q, e1, e2, shorter) ↦
      let e = take_lines-some fuel s l q e1 in
      let (same, rest, skipped) = skip_newlines_lem q in
      let (ih, ih_rest) = take_lines_lem fuel (skip_newlines q) (omega arith) in
      (
        ap (λ p. keep has_bytes p.0) e
            ∙ (keep-cons l (take_lines fuel (skip_newlines q)).0 (lines_of q).0 (ih ∙ same)
                ∙ ap (λ p. keep has_bytes p.0) (sym e2)),
        ap (λ p. p.1) e ∙ (ih_rest ∙ (rest ∙ ap (λ p. p.1) (sym e2))),
      )
]

pub drain_lines_lem :
    (s : Bytes)
    → (keep has_bytes (drain_lines s).0 ≡ finished s) × ((drain_lines s).1 ≡ (lines_of s).1)
unfolding drain_lines
drain_lines_lem s = take_lines_lem (length s) s (omega arith)
