-- ===== src/Server/Validation/Silent.antt =====
-- What `_validation_message` does not tell.
use remote_ssh_mcp_server.Prelude.Text.{Text, mem_text}
use remote_ssh_mcp_server.Prelude.{
  Bool, ◌≡◌, refl, true, false, Option, none, some, List, [], ◌∷◌, arith,
}
use remote_ssh_mcp_server.Server.Models.{InputModel}
use remote_ssh_mcp_server.Server.Validation.{
  Detail, model_fields, named_field, invalid_fields, any_extra, validation_message,
}

-- No field of the model: its name comes from the caller.
abbrev IsForeign : InputModel → Option Text → Type 0
IsForeign model none = Unit
IsForeign model (some name) = mem_text name (model_fields model) ≡ false

-- Two errors that differ in names that come from the caller only.
pub data Alike (model : InputModel) : List Detail → List Detail → Type 0 where
  no_details : Alike model [] []
  same_detail :
      (d : Detail) {ds es : List Detail} → Alike model ds es → Alike model (d ∷ ds) (d ∷ es)
  both_extra :
      (d e : Detail) {ds es : List Detail}
      → d.extra_forbidden ≡ true
      → e.extra_forbidden ≡ true
      → Alike model ds es
      → Alike model (d ∷ ds) (e ∷ es)
  both_foreign :
      (d e : Detail) {ds es : List Detail}
      → d.extra_forbidden ≡ e.extra_forbidden
      → IsForeign model d.loc
      → IsForeign model e.loc
      → Alike model ds es
      → Alike model (d ∷ ds) (e ∷ es)

named_field-extra :
    (model : InputModel) (d : Detail) → d.extra_forbidden ≡ true → named_field model d ≡ none
unfolding named_field
named_field-extra model d h = ground arith

named_field-foreign :
    (model : InputModel) (d : Detail) → IsForeign model d.loc → named_field model d ≡ none
named_field-foreign model d h = by_loc d.loc d.extra_forbidden h
  where
    by_loc :
        (loc : Option Text) (extra : Bool)
        → IsForeign model loc
        → named_field model (record { loc = loc; extra_forbidden = extra }) ≡ none
    by_loc none extra h = unfold named_field in refl
    by_loc (some name) extra h = unfold named_field in ground arith

Alike-fields :
    (model : InputModel) {ds es : List Detail}
    → Alike model ds es
    → invalid_fields model ds ≡ invalid_fields model es
unfolding invalid_fields
Alike-fields model no_details = refl
Alike-fields model (same_detail d r) = ground (arith, Alike-fields model r)
Alike-fields model (both_extra d e h k r) =
    ground (arith, named_field-extra model d h, named_field-extra model e k, Alike-fields model r)
Alike-fields model (both_foreign d e s h k r) =
    ground
      (arith, named_field-foreign model d h, named_field-foreign model e k, Alike-fields model r)

Alike-extra :
    (model : InputModel) {ds es : List Detail} → Alike model ds es → any_extra ds ≡ any_extra es
unfolding any_extra
Alike-extra model no_details = refl
Alike-extra model (same_detail d r) = ground (arith, Alike-extra model r)
Alike-extra model (both_extra d e h k r) = ground (arith, Alike-extra model r)
Alike-extra model (both_foreign d e s h k r) = ground (arith, Alike-extra model r)

-- The message of a failed validation tells nothing of the arguments but which fields of the model are
-- missing or wrong and whether there are others: errors that differ in the names of unknown fields,
-- or in names that are no fields of the model, have the same message.
pub validation_message-Alike :
    (model : InputModel) (ds es : List Detail)
    → Alike model ds es
    → validation_message model ds ≡ validation_message model es
unfolding validation_message
validation_message-Alike model ds es r = rw (Alike-fields model r, Alike-extra model r)
