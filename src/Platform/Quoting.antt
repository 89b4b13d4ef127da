-- ===== src/Platform/Quoting.antt =====
-- A quoted argument is read back by the rules that Windows programs split their command line with.
pub mod Reading
use zju_connect_gui.Base.{
  ℕ, zero, suc, ◌+◌, ◌*◌, ◌≡◌, refl, append-nil, length, ap, sym, ◌∙◌, List, [], ◌∷◌, ◌++◌, true,
  false, any, ◌==◌, ==_iff, arith, Bool-cases, inl, inr,
}
use zju_connect_gui.Text.{Text}
use zju_connect_gui.Platform.{is_special, push_backslashes, escape_chars, escape_arg, parameters}
use zju_connect_gui.Platform.Quoting.Reading.{
  behind, with_char, read_arg, push_suc, push-append, read_arg-push, read_arg_even, read_arg_odd,
  read_arg_quoted, escape_backslash, escape_quote, escape_other, IsEnd, read_arg_plain, any_special,
}

module _ (tail rest : Text) (end : IsEnd tail rest) where
  read_arg-pushed :
      (n : ℕ) (t : Text)
      → read_arg true 0 (push_backslashes n t ++ tail) ≡ read_arg true n (t ++ tail)
  read_arg-pushed n t =
      let e : 0 + n ≡ n = omega arith in
      ap (read_arg true 0) (push-append n t tail)
      ∙ (read_arg-push true 0 n (t ++ tail) ∙ ap (λ k. read_arg true k (t ++ tail)) e)

  -- Behind the opening quote, with the backslashes that the loop has counted.
  read_arg-escape_chars :
      (n : ℕ) (s : Text) → read_arg true 0 (escape_chars n s ++ tail) ≡ (push_backslashes n s, rest)
  read_arg-escape_chars n [] =
      unfold escape_chars in
      read_arg-pushed (n * 2) (b'"' ∷ []) ∙ (read_arg_even true n tail ∙ ap (behind n) end)
  read_arg-escape_chars n (c ∷ s) = elim (Bool-cases (c == b'\\')) [
    | inl slash ↦
        let same : c ≡ b'\\' = (==_iff c b'\\').0 slash in
        ap (λ t. read_arg true 0 (t ++ tail)) (escape_backslash n c s slash)
        ∙ (read_arg-escape_chars (suc n) s
            ∙ ap (λ t. (t, rest)) (push_suc n s ∙ ap (λ d. push_backslashes n (d ∷ s)) (sym same)))
    | inr plain ↦ elim (Bool-cases (c == b'"')) [
      | inl quote ↦
          let same : c ≡ b'"' = (==_iff c b'"').0 quote in
          ap (λ t. read_arg true 0 (t ++ tail)) (escape_quote n c s plain quote)
          ∙ (read_arg-pushed (suc (n * 2)) (b'"' ∷ escape_chars 0 s)
              ∙ (read_arg_odd true n (escape_chars 0 s ++ tail)
                  ∙ (ap (λ p. behind n (with_char b'"' p)) (read_arg-escape_chars 0 s)
                      ∙ ap (λ d. (push_backslashes n (d ∷ s), rest)) (sym same))))
      | inr other ↦
          ap (λ t. read_arg true 0 (t ++ tail)) (escape_other n c s plain other)
          ∙ (read_arg-pushed n (c ∷ escape_chars 0 s)
              ∙ (read_arg_quoted n c (escape_chars 0 s ++ tail) plain other
                  ∙ ap (λ p. behind n (with_char c p)) (read_arg-escape_chars 0 s)))
    ]
  ]

  read_arg-plain : (s : Text) → any is_special s ≡ false → read_arg false 0 (s ++ tail) ≡ (s, rest)
  read_arg-plain [] h = end
  read_arg-plain (c ∷ s) h =
      let (plain, others) = any_special c s h in
      read_arg_plain c (s ++ tail) plain ∙ ap (with_char c) (read_arg-plain s others)

  -- An argument that is quoted, and followed by the end of the line or by a space, is read back as it
  -- was, and what is behind it is left.
  read_arg-escape_arg : (s : Text) → read_arg false 0 (escape_arg s ++ tail) ≡ (s, rest)
  read_arg-escape_arg [] =
      unfold escape_arg in
      read_arg_even false 0 (b'"' ∷ tail)
      ∙ ap (behind 0) (read_arg_even true 0 tail ∙ ap (behind 0) end)
  read_arg-escape_arg (c ∷ s) = elim (Bool-cases (any is_special (c ∷ s))) [
    | inl special ↦
        ap (λ t. read_arg false 0 (t ++ tail)) (quoted special)
        ∙ (read_arg_even false 0 (escape_chars 0 (c ∷ s) ++ tail)
            ∙ ap (behind 0) (read_arg-escape_chars 0 (c ∷ s)))
    | inr plain ↦
        ap (λ t. read_arg false 0 (t ++ tail)) (unquoted plain) ∙ read_arg-plain (c ∷ s) plain
  ]
    where
      quoted : any is_special (c ∷ s) ≡ true → escape_arg (c ∷ s) ≡ b'"' ∷ escape_chars 0 (c ∷ s)
      quoted h = unfold escape_arg in rw h refl

      unquoted : any is_special (c ∷ s) ≡ false → escape_arg (c ∷ s) ≡ c ∷ s
      unquoted h = unfold escape_arg in rw h refl

-- As many arguments as are asked for, and the rest of the line.
abbrev pub before : Text → List Text × Text → List Text × Text
before arg (args, rest) = (arg ∷ args, rest)

unfoldable pub read_args : ℕ → Text → List Text × Text
unfolding read_arg
read_args zero line = ([], line)
read_args (suc n) line = let (arg, rest) = read_arg false 0 line in before arg (read_args n rest)

read_args_step :
    (n : ℕ) (line arg rest : Text)
    → read_arg false 0 line ≡ (arg, rest)
    → read_args (suc n) line ≡ before arg (read_args n rest)
unfolding read_args
read_args_step n line arg rest e = ap (λ p. before p.0 (read_args n p.1)) e

IsEnd-space : (rest : Text) → IsEnd (b' ' ∷ rest) rest
unfolding read_arg
IsEnd-space rest = refl

IsEnd-nil : IsEnd [] []
unfolding read_arg
IsEnd-nil = refl

-- Every list of arguments, quoted one by one and joined with spaces as the elevated copy's command
-- line is, is read back by the rules for quotes and backslashes as the same arguments, none split or
-- joined, with nothing left of the line.
pub read_args-parameters :
    (args : List Text) → read_args (length args) (parameters args) ≡ (args, [])
unfolding parameters
read_args-parameters [] = unfold read_args in refl
read_args-parameters (a ∷ []) =
    read_args_step 0 (escape_arg a) a [] (
      ap (read_arg false 0) (sym (append-nil (escape_arg a)))
      ∙ read_arg-escape_arg [] [] IsEnd-nil a)
    ∙ unfold read_args in refl
read_args-parameters (a ∷ b ∷ args) =
    let rest = parameters (b ∷ args) in
    read_args_step (length (b ∷ args)) (escape_arg a ++ b' ' ∷ rest) a rest
      (read_arg-escape_arg (b' ' ∷ rest) rest (IsEnd-space rest) a)
    ∙ ap (before a) (read_args-parameters (b ∷ args))
