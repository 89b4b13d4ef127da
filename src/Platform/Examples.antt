-- ===== src/Platform/Examples.antt =====
-- Arguments with a space, a quote and a backslash at the end.
use zju_connect_gui.Base.{◌≡◌, List, [], ◌∷◌, length}
use zju_connect_gui.Text.{Text, codes}
use zju_connect_gui.Platform.{parameters}
use zju_connect_gui.Platform.Quoting.{read_args, read_args-parameters}

abbrev args : List Text
args = codes "--dir" ∷ codes "C:\\Program Files\\" ∷ codes "say \"hi\"" ∷ [] ∷ []

read_args-parameters_example : read_args (length args) (parameters args) ≡ (args, [])
read_args-parameters_example = read_args-parameters args
