-- ===== src/Links/Opened.antt =====
-- What the page of the portal is opened with.
use zju_connect_gui.Base.{◌≡◌, refl, List, [], ◌∷◌, ◌++◌, Bool-cases, inl, inr}
use zju_connect_gui.Text.{Text, is_empty}
use zju_connect_gui.Launch.{Platform, windows, linux, macos}
use zju_connect_gui.Links.{eip_url, open_command, eip_command}

open_command-args :
    (platform : Platform) (url : Text)
    → (before : List Text) × ((open_command platform url).args ≡ before ++ (url ∷ []))
unfolding open_command
open_command-args windows url = (_ ∷ [], refl)
open_command-args macos url = ([], refl)
open_command-args linux url = ([], refl)

-- Whatever the settings and the platform are, the last argument of the command is the portal's address.
eip_command-args :
    (platform : Platform) (program : Text) (args : List Text)
    → (before : List Text) × ((eip_command platform program args).args ≡ before ++ (eip_url ∷ []))
unfolding eip_command
eip_command-args platform program args = elim (Bool-cases (is_empty program)) [
  | inl unset ↦ rw unset (open_command-args platform eip_url)
  | inr chosen ↦ rw chosen (args, refl)
]
