-- ===== src/Catalog/Comments.antt =====
-- stripComments of server/internal/catalog/catalog.go, on decoded JSON. An object's fields have
-- different names, in the order in which a range over the map meets them.
pub mod Stripped
use eagle_condor_sandbox.Prelude.{Bool, Option, none, some, true, false, if◌then◌else◌}
use eagle_condor_sandbox.Prelude.Text.{Text, codes, text_eq}

mutual
  pub data Json : Type 0 where
    null : Json
    bool : Bool → Json
    number string : Text → Json
    array : Items → Json
    object : Fields → Json

  pub data Items : Type 0 where
    no_items : Items
    item : Json → Items → Items

  pub data Fields : Type 0 where
    no_fields : Fields
    field : Text → Json → Fields → Fields

abbrev pub comment_key : Text
comment_key = codes "$comment"

unfoldable mutual
  unfolding text_eq

  -- stripComments
  pub strip_comments : Json → Json
  strip_comments (array is) = array (strip_items is)
  strip_comments (object fs) = object (strip_fields fs)
  strip_comments other = other

  pub strip_items : Items → Items
  strip_items no_items = no_items
  strip_items (item v is) = item (strip_comments v) (strip_items is)

  pub strip_fields : Fields → Fields
  strip_fields no_fields = no_fields
  strip_fields (field k v fs) =
      let rest = strip_fields fs in
      let kept = field k (strip_comments v) rest in if text_eq k comment_key then rest else kept
