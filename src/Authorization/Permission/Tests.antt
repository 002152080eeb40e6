-- ===== src/Authorization/Permission/Tests.antt =====
-- Permissions on concrete texts.
use verixa.Prelude.{[], ◌∷◌, ◌≡◌, refl, true}
use verixa.Prelude.Text.{Text, text_eq}
use verixa.Kernel.Result.{ok, err}
use verixa.Authorization.Permission.{
  Permission, create, matches_text, empty_action, invalid_format, trim_start, trim_end, split,
  lower, matches, all_permission_chars, is_permission_char,
}
use verixa.Authorization.Permission.Shape.{IsValid}
use verixa.Authorization.Permission.RoundTrip.{create-value}

-- " Doc:Read " with one letter for each word, and what it is stored as.
abbrev spelling : Text
spelling = 32 ∷ 68 ∷ 58 ∷ 82 ∷ 32 ∷ []

abbrev stored : Permission
stored = record { value = 100 ∷ 58 ∷ 114 ∷ []; resource = 100 ∷ []; action = 114 ∷ [] }

created : create spelling ≡ ok stored
unfolding create trim_start trim_end split lower all_permission_chars is_permission_char
created = refl

spelled : matches_text spelling (100 ∷ 58 ∷ 114 ∷ []) ≡ true
unfolding matches_text create trim_start trim_end split lower matches all_permission_chars
    is_permission_char text_eq
spelled = refl

no_action : create (100 ∷ 58 ∷ []) ≡ err empty_action
unfolding create trim_start trim_end split lower
no_action = refl

two_colons : create (100 ∷ 58 ∷ 100 ∷ 58 ∷ 100 ∷ []) ≡ err invalid_format
unfolding create trim_start trim_end split lower
two_colons = refl

create-value_example : IsValid stored × (create stored.value ≡ ok stored)
create-value_example = create-value spelling stored created
