-- ===== src/RebootIntent/Store/Judged.antt =====
-- What `begin_or_resume` of tools/automation/reboot_intent.py compares an intent with, and what an
-- accepted intent records.
use zygveil.Base.{
  ℕ, String, ◌≡◌, ◌≢◌, refl, sym, ap, subst, ◌∙◌, some-injective, ◌⊎◌, inl, inr, Bool, true, false,
  not, ◌&&◌, ◌||◌, Option, none, some, Dict, lookup, has_exactly, is_sha256, ok, >>=-eq-ok,
  >>-eq-ok, reject->>-eq-ok, ok-injective, not-eq-false, Bool-cases, eq_iff, arith,
}
use zygveil.SafeRead.{is_regular, read_checked}
use zygveil.Json.{Json, text, is_str, is_int, str_and}
use zygveil.RebootIntent.Document.{
  Request, Identity, intent_keys, is_name, is_state_name, is_context, is_counter, is_intent,
}
use zygveil.RebootIntent.Disk.{Node, Disk, reject_conflicting_intents}
use zygveil.RebootIntent.Store.{
  Observer, read_rule, parse_intent, load_node, load_intent, field_is, is_resumed, judge,
  same_counter,
}
use zygveil.RebootIntent.Store.Pending.{parse_intent_sound}

-- The boot that an intent records.
abbrev pub Records : Dict Json → String → Type 0
Records v boot = lookup "source_boot_id_sha256" v ≡ some (text boot)

-- A counter of an intent is unknown, or the one of the caller.
abbrev pub Agrees : String → Dict Json → String → Type 0
Agrees key v current = (lookup key v ≡ some (text "0")) ⊎ (lookup key v ≡ some (text current))

text_of : Option Json → String
text_of (some (text s)) = s
text_of other = ""

pub text_injective : (s t : String) → some (text s) ≡ some (text t) → s ≡ t
unfolding text_of
text_injective s t e = ap text_of e

is_str-text : (o : Option Json) (s : String) → is_str o s ≡ true → o ≡ some (text s)
is_str-text (some (text t)) s h = ap (λ x. some (text x)) ((eq_iff t s).0 h)
is_str-text (some other) s h = absurd (ground arith)
is_str-text none s h = absurd (ground arith)

is_str-apart : (o : Option Json) (s t : String) → is_str o s ≡ false → o ≡ some (text t) → t ≢ s
is_str-apart o s t h e = λ same. ground (arith, rw e at h, eq_iff t s)

str_and-text :
    (test : String → Bool) (o : Option Json)
    → str_and test o ≡ true
    → (s : String) × (o ≡ some (text s))
str_and-text test (some (text t)) h = (t, refl)
str_and-text test (some other) h = absurd (ground arith)
str_and-text test none h = absurd (ground arith)

ninth_of_eleven :
    (a b c d e f g h i j k : Bool)
    → (a && b && c && d && e && f && g && h && i && j && k) ≡ true
    → i ≡ true
ninth_of_eleven a b c d e f g h i j k all = ground arith

pub is_intent-Records :
    (v : Dict Json) (r : Request) → is_intent v r ≡ true → (boot : String) × Records v boot
unfolding is_intent
is_intent-Records v r h = str_and-text is_sha256 (lookup "source_boot_id_sha256" v) (
    ninth_of_eleven (has_exactly v intent_keys) (is_int (lookup "schema_version" v) 2)
      (is_name r.operation) (is_state_name r.expected_state) (is_context r.context_id)
      (is_str (lookup "operation" v) r.operation)
      (is_str (lookup "expected_state" v) r.expected_state)
      (is_str (lookup "context_id" v) r.context_id)
      (str_and is_sha256 (lookup "source_boot_id_sha256" v))
      (str_and is_counter (lookup "source_system_server_pid" v))
      (str_and is_counter (lookup "source_system_server_start_ticks" v)) h)

load_node-is_intent :
    (observe : Observer) (r : Request) (getuid : ℕ) (o : Option Node) (v : Dict Json)
    → load_node observe r getuid o ≡ ok (some v)
    → is_intent v r ≡ true
load_node-is_intent observe r getuid none v h = absurd (ground arith)
load_node-is_intent observe r getuid (some n) v h =
    let (_, r₁) = reject->>-eq-ok (not (is_regular n.kind)) _ _ h in
    let (raw, _, r₂) = >>=-eq-ok (read_checked getuid read_rule (observe n)) _ r₁ in
    let (values, parsed, r₃) = >>=-eq-ok (parse_intent r raw) _ r₂ in
    let same : values ≡ v = some-injective values v (ok-injective r₃) in
    (parse_intent_sound r raw v (subst (λ x. parse_intent r raw ≡ ok x) same parsed)).0

pub load_intent-is_intent :
    (observe : Observer) (r : Request) (path : String) (d : Disk) (v : Dict Json)
    → load_intent observe r path d ≡ ok (some v)
    → is_intent v r ≡ true
unfolding load_intent
load_intent-is_intent observe r path d v h =
    let (_, found) = >>-eq-ok (reject_conflicting_intents path d) _ h in
    load_node-is_intent observe r d.getuid (lookup path d.files) v found

-- What has been judged.
pub record IsJudged (i : Identity) (v w : Dict Json) (resumed : Bool) : Type 0 where
  pub same : v ≡ w
  pub apart : (boot : String) → Records w boot → resumed ≡ true → boot ≢ i.boot_id_sha256
  pub here :
      resumed ≡ false
      → Records w i.boot_id_sha256
        × Agrees "source_system_server_pid" w i.pid
        × Agrees "source_system_server_start_ticks" w i.start_ticks

same_counter-Agrees :
    (key : String) (v : Dict Json) (current : String)
    → same_counter key v current ≡ true
    → Agrees key v current
same_counter-Agrees key v current h = elim (Bool-cases (field_is key v "0")) [
  | inl unknown ↦ inl (is_str-text (lookup key v) "0" unknown)
  | inr known ↦ inr (is_str-text (lookup key v) current (ground arith))
]

judged_here :
    (v : Dict Json) (i : Identity)
    → (not (is_resumed v i)
        && (not (same_counter "source_system_server_pid" v i.pid)
            || not (same_counter "source_system_server_start_ticks" v i.start_ticks)))
      ≡ false
    → is_resumed v i ≡ false
    → Records v i.boot_id_sha256
      × Agrees "source_system_server_pid" v i.pid
      × Agrees "source_system_server_start_ticks" v i.start_ticks
unfolding is_resumed
judged_here v i passed h = (
  is_str-text (lookup "source_boot_id_sha256" v) i.boot_id_sha256 (not-eq-false _ h),
  same_counter-Agrees "source_system_server_pid" v i.pid (ground arith),
  same_counter-Agrees "source_system_server_start_ticks" v i.start_ticks (ground arith),
)

judged_apart :
    (v : Dict Json) (i : Identity) (boot : String)
    → Records v boot
    → is_resumed v i ≡ true
    → boot ≢ i.boot_id_sha256
unfolding is_resumed
judged_apart v i boot e h =
    is_str-apart (lookup "source_boot_id_sha256" v) i.boot_id_sha256 boot (ground arith) e

pub judge-IsJudged :
    (v w : Dict Json) (i : Identity) (resumed : Bool)
    → judge v i ≡ ok (w, resumed)
    → IsJudged i v w resumed
unfolding judge
judge-IsJudged v w i resumed h =
    let (passed, r) =
      reject->>-eq-ok
        (not (is_resumed v i)
          && (not (same_counter "source_system_server_pid" v i.pid)
              || not (same_counter "source_system_server_start_ticks" v i.start_ticks)))
        _ _ h in
    let whole : (v, is_resumed v i) ≡ (w, resumed) = ok-injective r in
    let same : v ≡ w = ap (λ (x : Dict Json × Bool). x.0) whole in
    let kind : is_resumed v i ≡ resumed = ap (λ (x : Dict Json × Bool). x.1) whole in
    record {
      same = same;
      apart = λ boot e again.
          judged_apart v i boot (subst (λ x. Records x boot) (sym same) e) (kind ∙ again);
      here = λ first.
          subst
            (λ x.
              Records x i.boot_id_sha256
              × Agrees "source_system_server_pid" x i.pid
              × Agrees "source_system_server_start_ticks" x i.start_ticks)
            same (judged_here v i passed (kind ∙ first));
    }
