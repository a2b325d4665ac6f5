-- ===== src/Protection/Tests.antt =====
-- The protection rule of src/protection.rs on concrete names.
use kickoutchi.Prelude.{◌≡◌, refl, true, List, [], ◌∷◌, inl, inr}
use kickoutchi.Prelude.Text.{Text, codes}
use kickoutchi.Model.{Platform}
use kickoutchi.Protection.{is_protected_process_name}
use kickoutchi.Protection.Laws.{protected_kernel_name}

abbrev names : List Text
names = codes "sshd" ∷ codes "gnome-session-binary" ∷ []

protected_kernel_name_example :
    is_protected_process_name Platform.linux (codes "gnome-session-b") names ≡ true
protected_kernel_name_example =
    protected_kernel_name names (codes "gnome-session-binary") refl (inr (inl refl))
