-- ===== src/Exec/Environment.antt =====
-- buildEnv of server/internal/run/exec.go: the child's environment. The server's own environment is
-- the parameter `host` (os.LookupEnv).
pub mod Chosen
use eagle_condor_sandbox.Prelude.{
  ℕ, zero, suc, ◌+◌, ◌-◌, ◌*◌, ◌/◌, ◌%◌, ◌^◌, List, [], ◌∷◌, ◌++◌, Option, none, some, ltb,
  if◌then◌else◌, map, ◌≡◌, refl,
}
use eagle_condor_sandbox.Prelude.Int.{word, signed, ℤ, pos, negsuc}
use eagle_condor_sandbox.Prelude.Text.{Text, codes}
use eagle_condor_sandbox.Prelude.Decimal.{format_int}
use eagle_condor_sandbox.Prelude.Assoc.{Assoc, insert}
use eagle_condor_sandbox.Layout.{tmp, report, report_json}
use eagle_condor_sandbox.Exec.{Spec, Runtime}

abbrev pub passthrough : List Text
passthrough =
    codes "PATH"
    ∷ codes "SystemRoot"
    ∷ codes "windir"
    ∷ codes "TEMP"
    ∷ codes "TMP"
    ∷ codes "HOME"
    ∷ codes "USERPROFILE"
    ∷ codes "LANG"
    ∷ codes "LC_ALL"
    ∷ codes "TZ"
    ∷ codes "PLAYWRIGHT_BROWSERS_PATH"
    ∷ codes "NODE_OPTIONS"
    ∷ []

abbrev with_host : Text → Option Text → Assoc Text → Assoc Text
with_host k none env = env
with_host k (some v) env = insert k v env

-- `for _, k := range passthrough`
unfoldable pub inherit : (Text → Option Text) → List Text → Assoc Text → Assoc Text
unfolding insert
inherit host [] env = env
inherit host (k ∷ ks) env = inherit host ks (with_host k (host k) env)

-- time.Duration(spec.TimeoutSeconds)*time.Second - playwrightGrace, which wraps.
unfoldable pub playwright_time : ℤ → ℤ
playwright_time seconds =
    signed
      ((word seconds * 1000000000 + (18446744073709551616 - 120000000000)) % 18446744073709551616)

abbrev at_least_floor : ℤ → ℕ
at_least_floor (pos n) = if ltb n 30000000000 then 30000000000 else n
at_least_floor (negsuc n) = 30000000000

-- pwTimeout.Milliseconds()
unfoldable pub playwright_ms : ℤ → ℕ
unfolding playwright_time
playwright_ms seconds = at_least_floor (playwright_time seconds) / 1000000

-- The assignments of buildEnv under its own keys, in their order.
unfoldable pub own : Runtime → Spec → Assoc Text
unfolding tmp report report_json playwright_ms format_int
own rt spec =
    let ms = format_int (playwright_ms spec.timeout_seconds) in
    (codes "PS_RECEIPTS_DIR", rt.receipts_dir)
    ∷ (codes "PS_RUN_TMP_DIR", tmp spec.root)
    ∷ (codes "PW_HTML_REPORT_DIR", report spec.root)
    ∷ (codes "PW_RESULT_JSON", report_json spec.root)
    ∷ (codes "PS_RUN_TIMEOUT_MS", ms)
    ∷ (codes "PW_TIMEOUT", ms)
    ∷ (codes "PW_HEADLESS", codes "true")
    ∷ (codes "PW_TRACE", codes "off")
    ∷ (codes "TRACK_INPUTS", codes "false")
    ∷ []

-- `env[k] = v` for each entry. The entries have different keys, so that the order is of no account.
unfoldable pub assign : Assoc Text → Assoc Text → Assoc Text
unfolding insert
assign [] env = env
assign ((k, v) ∷ kvs) env = insert k v (assign kvs env)

-- The map that buildEnv fills.
unfoldable pub env_map : (Text → Option Text) → Runtime → Spec → Assoc Text
unfolding inherit own assign
env_map host rt spec = assign spec.env (assign (own rt spec) (inherit host passthrough []))

abbrev entry : Text × Text → Text
entry (k, v) = k ++ codes "=" ++ v

-- buildEnv
unfoldable pub build_env : (Text → Option Text) → Runtime → Spec → List Text
unfolding env_map
build_env host rt spec = map entry (env_map host rt spec)

formats : format_int 480000 ≡ codes "480000"
unfolding format_int
formats = refl
