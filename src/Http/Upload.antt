-- ===== src/Http/Upload.antt =====
-- The first half of createRun (server/internal/httpapi/handlers.go): reading the parts of the body.
use eagle_condor_sandbox.Prelude.{
  ℕ, ◌*◌, ◌%◌, ◌≡◌, ◌≢◌, refl, Bool, true, false, ◌&&◌, List, [], ◌∷◌, Option, none, some,
  if◌then◌else◌, ltb, length, take,
}
use eagle_condor_sandbox.Prelude.Int.{ℤ, pos, negsuc, ltb_ℤ, inc64, word, signed}
use eagle_condor_sandbox.Prelude.Text.{Text, codes, text_eq}
use eagle_condor_sandbox.Prelude.Assoc.{Assoc, insert}
use eagle_condor_sandbox.Http.Csv.{CsvError}
use eagle_condor_sandbox.Http.Server.{CreateConfig, Part, Next, part, bad_part, Codec}

-- Why createRun refuses a request before there is a run, for each writeError.
pub data Refusal : Type 0 where
  not_multipart bad_upload bad_config bad_env no_config no_id no_dirs : Refusal
  unread_part too_large no_workflow unknown_input missing_input missing_param unwritten :
      Text → Refusal
  bad_csv : CsvError → Refusal

-- The status of the answer.
unfoldable pub refusal_status : Refusal → ℕ
refusal_status (too_large name) = 413
refusal_status no_id = 500
refusal_status no_dirs = 500
refusal_status (unwritten path) = 500
refusal_status _ = 400

-- A step that can refuse the request.
pub data Tried {ℓ} (A : Type ℓ) : Type ℓ where
  refused : Refusal → Tried A
  fine : A → Tried A

infixl 5 ◌>>=◌
abbrev pub ◌>>=◌ {ℓ κ} : {A : Type ℓ} {B : Type κ} → Tried A → (A → Tried B) → Tried B
refused e >>= k = refused e
fine a >>= k = k a

pub bind-fine {ℓ κ} :
    {A : Type ℓ} {B : Type κ} (m : Tried A) (k : A → Tried B) (b : B)
    → (m >>= k) ≡ fine b
    → (a : A) × (m ≡ fine a) × (k a ≡ fine b)
bind-fine (refused e) k b h = absurd (cc)
bind-fine (fine a) k b h = (a, refl, h)

pub if-fine {ℓ} :
    {A : Type ℓ} (b : Bool) (a a' : A) (e : Refusal)
    → (if b then fine a else refused e) ≡ fine a'
    → (b ≡ true) × (a ≡ a')
if-fine true a a' e h = (refl, cc)
if-fine false a a' e h = absurd (cc)

pub if-refused {ℓ} :
    {A : Type ℓ} (b : Bool) (a a' : A) (e : Refusal)
    → (if b then refused e else fine a) ≡ fine a'
    → (b ≡ false) × (a ≡ a')
if-refused true a a' e h = absurd (cc)
if-refused false a a' e h = (refl, cc)

pub fine-inj {ℓ} : {A : Type ℓ} (a a' : A) → fine a ≡ fine a' → a ≡ a'
fine-inj a a' h = cc

pub refused_ne {ℓ} : {A : Type ℓ} (a : A) (e : Refusal) → refused e ≢ fine a
refused_ne a e h = cc

-- s.cfg.MaxUploadBytes * 8, which wraps.
unfoldable pub max_total : ℤ → ℤ
max_total m = signed (word m * 8 % 18446744073709551616)

-- io.ReadAll(io.LimitReader(part, n)): `none` is an error of the part.
unfoldable pub read_limited : Part → ℤ → Option Text
read_limited p (negsuc n) = some []
read_limited p (pos n) =
    if ltb (length p.content) n
    then (if p.broken then none else some p.content)
    else some (take n p.content)

-- What the loop over the parts has gathered: cfg, uploads, gotConfig.
pub record Form : Type 0 where
  pub cfg : CreateConfig
  pub uploads : Assoc Text
  pub got_config : Bool

-- A part that is not the config, once it is read.
abbrev pub keep_upload : ℤ → Text → Option Text → Form → Tried Form
keep_upload limit name none f = refused (unread_part name)
keep_upload limit name (some t) f =
    if ltb_ℤ limit (pos (length t))
    then refused (too_large name)
    else fine (record f { uploads = insert name t f.uploads })

abbrev pub keep_config : Option CreateConfig → Form → Tried Form
keep_config none f = refused bad_config
keep_config (some c) f = fine (record f { cfg = c; got_config = true })

-- The reader of the config part stops behind 1 << 20 bytes.
abbrev pub config_limit : ℕ
config_limit = 1048576

unfoldable pub read_part : Codec → ℤ → Part → Form → Tried Form
unfolding text_eq read_limited insert
read_part codec limit p f =
    if text_eq p.name (codes "config")
    then keep_config
        (codec.decode f.cfg (take config_limit p.content)
          (ltb (length p.content) config_limit && p.broken))
        f
    else keep_upload limit p.name (read_limited p (inc64 limit)) f

-- The loop over the parts.
unfoldable pub read_parts : Codec → ℤ → List Next → Form → Tried Form
unfolding read_part
read_parts codec limit [] f = fine f
read_parts codec limit (bad_part ∷ ns) f = refused bad_upload
read_parts codec limit (part p ∷ ns) f = do
  g ← read_part codec limit p f
  read_parts codec limit ns g

abbrev no_form : Form
no_form = record {
  cfg = record {
    workflow_id = [];
    env = [];
    timeout_seconds = pos 0;
    trace = false;
    submitted_by = [];
    params = [];
  };
  uploads = [];
  got_config = false;
}

abbrev configured : Form → Tried Form
configured f = if f.got_config then fine f else refused no_config

-- createRun up to the look at gotConfig. `body` is the multipart reader over the body that
-- http.MaxBytesReader cuts; `none` is that the body is not multipart.
unfoldable pub read_form : Codec → ℤ → (ℤ → Option (List Next)) → Tried Form
unfolding max_total read_parts
read_form codec limit body = elim (body (max_total limit)) [
  | none ↦ refused not_multipart
  | some parts ↦ do f ← read_parts codec limit parts no_form; configured f
]
