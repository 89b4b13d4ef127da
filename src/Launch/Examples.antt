-- ===== src/Launch/Examples.antt =====
-- Options as the page submits them, with ASCII letters put in lower case.
use zju_connect_gui.Base.{ℕ, ◌≡◌, refl, [], ◌∷◌, false, not, any, arith}
use zju_connect_gui.Base.Results.{ok, ◌>>◌, fail_if}
use zju_connect_gui.Text.{
  Text, codes, is_empty, text_eq, trim, is_whitespace, lower_ascii, to_ascii_lowercase,
}
use zju_connect_gui.Text.Laws.{StartsSolid, EndsSolid}
use zju_connect_gui.Launch.{
  LaunchOptions, blank_options, normalize_launch_options, validate, supported_protocols, or_default,
  empty_username, empty_password, unsupported_protocol, build_args,
}
use zju_connect_gui.Launch.Normal.{IsLowercase}
use zju_connect_gui.Launch.Validity.{validate-normalize}
use zju_connect_gui.Launch.Args.{read_args, flags_of, read_args-build_args}

lower_ascii_idem : (c : ℕ) → lower_ascii (lower_ascii c) ≡ lower_ascii c
unfolding lower_ascii
lower_ascii_idem c = ground arith

lower_ascii_solid : (c : ℕ) → is_whitespace c ≡ false → is_whitespace (lower_ascii c) ≡ false
unfolding lower_ascii is_whitespace
lower_ascii_solid c h = ground arith

ascii_idem : (s : Text) → to_ascii_lowercase (to_ascii_lowercase s) ≡ to_ascii_lowercase s
unfolding to_ascii_lowercase
ascii_idem [] = refl
ascii_idem (c ∷ s) = rw (lower_ascii_idem c, ascii_idem s) refl

ascii_StartsSolid : (s : Text) → StartsSolid s → StartsSolid (to_ascii_lowercase s)
unfolding to_ascii_lowercase
ascii_StartsSolid [] h = tt
ascii_StartsSolid (c ∷ s) h = lower_ascii_solid c h

ascii_EndsSolid : (s : Text) → EndsSolid s → EndsSolid (to_ascii_lowercase s)
unfolding to_ascii_lowercase
ascii_EndsSolid [] h = tt
ascii_EndsSolid (c ∷ []) h = lower_ascii_solid c h
ascii_EndsSolid (c ∷ d ∷ s) h = ascii_EndsSolid (d ∷ s) h

pub ascii-IsLowercase : IsLowercase to_ascii_lowercase
ascii-IsLowercase = record {
  idem = ascii_idem;
  keeps_trimmed = λ s h. (ascii_StartsSolid s h.0, ascii_EndsSolid s h.1);
  keeps_default = unfold to_ascii_lowercase lower_ascii in refl;
}

-- What the page sends: blanks around the user name, and the protocol in capitals.
abbrev pub submitted : LaunchOptions
submitted = record blank_options {
  protocol = codes " ATrust ";
  username = codes " alice ";
  password = codes "p";
  proxybridge_processes = codes " mstsc.exe " ∷ codes " " ∷ [];
}

abbrev pub normal : LaunchOptions
normal = normalize_launch_options to_ascii_lowercase submitted

validate-normalize_example : validate normal ≡ (
    fail_if
      (not (any (text_eq normal.protocol) supported_protocols))
      (unsupported_protocol normal.protocol)
    >> (fail_if (is_empty normal.username) empty_username
        >> (fail_if (is_empty normal.password) empty_password >> ok tt)))
validate-normalize_example =
    validate-normalize {to_lowercase = to_ascii_lowercase} ascii-IsLowercase submitted

pub normal-is_valid : validate normal ≡ ok tt
unfolding validate normalize_launch_options to_ascii_lowercase lower_ascii text_eq is_empty trim
    or_default is_whitespace
normal-is_valid = refl

read_args-build_args_example :
    read_args (build_args normal (codes "captcha.png")) ≡ flags_of normal (codes "captcha.png")
read_args-build_args_example = read_args-build_args normal (codes "captcha.png")
