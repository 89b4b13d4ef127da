-- ===== src/Platform.antt =====
-- src/backend/platform/windows_impl.rs: the quoting of an argument for the elevated copy's command
-- line.
pub mod Quoting
pub mod System
mod Examples
use zju_connect_gui.Base.{
  ℕ, zero, suc, ◌+◌, ◌*◌, List, [], ◌∷◌, ◌++◌, Bool, true, false, ◌||◌, any, ◌==◌, if◌then◌else◌,
}
use zju_connect_gui.Text.{Text}

abbrev pub is_special : ℕ → Bool
is_special c = c == b' ' || c == b'\t' || c == b'"' || c == b'\\'

abbrev pub push_backslashes : ℕ → Text → Text
push_backslashes zero s = s
push_backslashes (suc n) s = b'\\' ∷ push_backslashes n s

-- The loop over the characters with the count of backslashes read, and the code behind it; the
-- output is built from the front.
unfoldable pub escape_chars : (backslashes : ℕ) → Text → Text
escape_chars backslashes [] = push_backslashes (backslashes * 2) (b'"' ∷ [])
escape_chars backslashes (c ∷ s) =
    let counted = escape_chars (suc backslashes) s in
    let rest = escape_chars 0 s in
    if c == b'\\'
    then counted
    else if c == b'"'
    then push_backslashes (backslashes * 2 + 1) (b'"' ∷ rest)
    else push_backslashes backslashes (c ∷ rest)

unfoldable pub escape_arg : Text → Text
unfolding escape_chars
escape_arg [] = b'"' ∷ b'"' ∷ []
escape_arg (c ∷ s) = if any is_special (c ∷ s) then b'"' ∷ escape_chars 0 (c ∷ s) else c ∷ s

-- `args.iter().map(escape_arg).collect().join(" ")`
unfoldable pub parameters : List Text → Text
unfolding escape_arg
parameters [] = []
parameters (a ∷ []) = escape_arg a
parameters (a ∷ b ∷ args) = escape_arg a ++ b' ' ∷ parameters (b ∷ args)
