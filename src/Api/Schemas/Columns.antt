-- ===== src/Api/Schemas/Columns.antt =====
-- The bounds of a body for a new host against the widths of the columns that the migrations give it.
use smart_classroom.Prelude.{
  ℕ, ◌≤◌, ◌≡◌, refl, List, [], ◌∷◌, ◌++◌, Option, none, some, arith, String, str_eq, select_one,
}
use smart_classroom.Api.Hosts.{HostCreate, host_from}
use smart_classroom.Domain.Rows.{Host}
use smart_classroom.Api.Schemas.{
  len, length_within, optional_within, number_within, validate_host_create,
}
use smart_classroom.Boot.Schema.{Column, varchar}
use smart_classroom.Boot.Schema.Tables.{hosts}
use smart_classroom.Boot.Schema.Later.{sunshine_broker_token}

-- The text is not too long for a column: the column is there, a varchar, and as wide.
pub data FitsIn (columns : List Column) (name text : String) : Type 0 where
  fits :
      (c : Column) (width : ℕ)
      → select_one (λ (x : Column). str_eq x.name name) columns ≡ some c
      → c.type_ ≡ varchar width
      → len text ≤ width
      → FitsIn columns name text

-- The same for a value that may be NULL.
abbrev pub MayFit : List Column → String → Option String → Type 0
MayFit columns name none = Unit
MayFit columns name (some text) = FitsIn columns name text

-- The columns of the table of hosts after the third migration.
abbrev pub host_columns : List Column
host_columns = hosts.columns ++ sunshine_broker_token ∷ []

-- Every text of the row but the address, whose column is INET, fits its column.
pub record HostFits (h : Host) : Type 0 where
  pub hostname : FitsIn host_columns "hostname" h.hostname
  pub display_name : FitsIn host_columns "display_name" h.display_name
  pub location : MayFit host_columns "location" h.location
  pub gpu_model : MayFit host_columns "gpu_model" h.gpu_model
  pub broker_token : MayFit host_columns "sunshine_broker_token" h.sunshine_broker_token

append-nil_parts : {A : Type 0} (xs ys : List A) → xs ++ ys ≡ [] → (xs ≡ []) × (ys ≡ [])
append-nil_parts [] ys h = (refl, h)
append-nil_parts (x ∷ xs) ys h = absurd (ground arith)

length_within_sound : (field : String) (a b n : ℕ) → length_within field a b n ≡ [] → n ≤ b
unfolding length_within
length_within_sound field a b n h = ground arith

may_fit :
    (name : String) (c : Column) (width : ℕ) (o : Option String)
    → select_one (λ (x : Column). str_eq x.name name) host_columns ≡ some c
    → c.type_ ≡ varchar width
    → optional_within name width o ≡ []
    → MayFit host_columns name o
unfolding optional_within
may_fit name c width none e t h = tt
may_fit name c width (some s) e t h = fits c width e t (length_within_sound name 0 width (len s) h)

-- A body for a new host that is accepted makes a row whose texts, except for the address, are no longer
-- than the columns of the migrations allow. The address is not bounded by the schema.
pub validate_host_create-HostFits :
    (payload : HostCreate) (i : ℕ)
    → validate_host_create payload ≡ []
    → HostFits (host_from i payload)
unfolding validate_host_create select_one
validate_host_create-HostFits p i h =
    let (a, r) = append-nil_parts (length_within "hostname" 1 64 (len p.hostname)) _ h in
    let (b, s) = append-nil_parts (length_within "display_name" 1 128 (len p.display_name)) _ r in
    let (c, t) = append-nil_parts (optional_within "location" 128 p.location) _ s in
    let (d, u) = append-nil_parts (number_within "sunshine_port" 1 65535 p.sunshine_port) _ t in
    let (e, f) = append-nil_parts (optional_within "gpu_model" 128 p.gpu_model) _ u in
    record {
      hostname = fits _ 64 refl refl (length_within_sound "hostname" 1 64 _ a);
      display_name = fits _ 128 refl refl (length_within_sound "display_name" 1 128 _ b);
      location = may_fit "location" _ 128 p.location refl refl c;
      gpu_model = may_fit "gpu_model" _ 128 p.gpu_model refl refl e;
      broker_token = may_fit "sunshine_broker_token" _ 128 p.sunshine_broker_token refl refl f;
    }
