-- ===== src/BootConfig/Runtime/Identity.antt =====
-- What `validate_runtime_status` of tools/automation/location_device.py accepts.
use zygveil.Base.{
  ℕ, ◌≤◌, ◌<◌, ◌^◌, String, ◌≡◌, ◌≢◌, subst, ◌↔◌, true, false, not, ◌&&◌, ◌||◌, ◌==◌, Dict,
  has_exactly, lookup, is_text, eqb, same_bool, ok, >>=-eq-ok, >>-eq-ok, reject->>-eq-ok,
  reject-eq-ok, ok-injective, not-eq-false, eq_iff, arith,
}
use zygveil.LiveControl.Status.{is_uuid}
use zygveil.BootConfig.Runtime.{
  Runtime, Counts, counts, runtime_keys, read_runtime, exceeds_wire, is_incomplete, has_control,
  check_runtime_words, check_runtime_digits, check_runtime_identity, check_runtime,
  validate_runtime_status,
}

-- The numbers fit their fields.
pub record FitsWire (n : Counts) : Type 0 where
  pub hooks : n.hooks < 2 ^ 32
  pub pid : n.pid < 2 ^ 32
  pub start_ticks : n.start_ticks < 2 ^ 64
  pub generation : n.generation < 2 ^ 62
  pub control_fd : n.control_fd < 2 ^ 31
  pub owner_pid : n.owner_pid < 2 ^ 32
  pub owner_ticks : n.owner_ticks < 2 ^ 64

exceeds_wire-FitsWire : (n : Counts) → exceeds_wire n ≡ false → FitsWire n
unfolding exceeds_wire
exceeds_wire-FitsWire n h = record {
  hooks = ground arith;
  pid = ground arith;
  start_ticks = ground arith;
  generation = ground arith;
  control_fd = ground arith;
  owner_pid = ground arith;
  owner_ticks = ground arith;
}

-- A status that says it is ready: it names a process, its owner and a descriptor for control.
pub record IsReady (r : Runtime) (n : Counts) : Type 0 where
  pub pid : 0 < n.pid
  pub start_ticks : 0 < n.start_ticks
  pub hooks : r.hook_count ≡ "5"
  pub generation : 0 < n.generation
  pub control_fd : 3 ≤ n.control_fd
  pub owner_pid : 0 < n.owner_pid
  pub owner_ticks : 0 < n.owner_ticks
  pub mode : r.raw_gnss_mode ≢ "unknown"

-- A status that does not: it holds no control.
pub record IsIdle (r : Runtime) : Type 0 where
  pub hooks : r.hook_count ≡ "0"
  pub control_fd : r.control_fd ≡ "0"
  pub owner_pid : r.owner_pid ≡ "0"
  pub owner_ticks : r.owner_ticks ≡ "0"

is_incomplete-IsReady : (r : Runtime) (n : Counts) → is_incomplete r n ≡ false → IsReady r n
unfolding is_incomplete
is_incomplete-IsReady r n h = record {
  pid = ground arith;
  start_ticks = ground arith;
  hooks = ground (arith, eq_iff r.hook_count "5");
  generation = ground arith;
  control_fd = ground arith;
  owner_pid = ground arith;
  owner_ticks = ground arith;
  mode = λ e. ground (arith, eq_iff r.raw_gnss_mode "unknown");
}

has_control-IsIdle : (r : Runtime) → has_control r ≡ false → IsIdle r
unfolding has_control
has_control-IsIdle r h = record {
  hooks = ground (arith, eq_iff r.hook_count "0");
  control_fd = ground (arith, eq_iff r.control_fd "0");
  owner_pid = ground (arith, eq_iff r.owner_pid "0");
  owner_ticks = ground (arith, eq_iff r.owner_ticks "0");
}

pub record IsRuntime (r : Runtime) : Type 0 where
  pub wire : FitsWire (counts r)
  pub boot_id : is_uuid r.boot_id ≡ true
  pub process : ((counts r).pid ≡ 0) ↔ ((counts r).start_ticks ≡ 0)
  pub owner : ((counts r).owner_pid ≡ 0) ↔ ((counts r).owner_ticks ≡ 0)
  pub ready : r.state ≡ "ready" → IsReady r (counts r)
  pub idle : r.state ≢ "ready" → IsIdle r

both_zero : (a b : ℕ) → not (same_bool (eqb a 0) (eqb b 0)) ≡ false → (a ≡ 0) ↔ (b ≡ 0)
both_zero a b h = (λ x. ground arith, λ x. ground arith)

check_runtime-IsRuntime : (r : Runtime) → check_runtime r ≡ ok tt → IsRuntime r
unfolding check_runtime check_runtime_identity
check_runtime-IsRuntime r h =
    let (_, r₁) = >>-eq-ok (check_runtime_words r) _ h in
    let (_, r₂) = >>-eq-ok (check_runtime_digits r) _ r₁ in
    let (wire, r₃) = reject->>-eq-ok (exceeds_wire (counts r)) _ _ r₂ in
    let (uuid, r₄) = reject->>-eq-ok (not (is_uuid r.boot_id)) _ _ r₃ in
    let (complete, r₅) =
      reject->>-eq-ok (r.state == "ready" && is_incomplete r (counts r)) _ _ r₄ in
    let (process, r₆) =
      reject->>-eq-ok (not (same_bool (eqb (counts r).pid 0) (eqb (counts r).start_ticks 0))) _ _
        r₅ in
    let (owner, r₇) =
      reject->>-eq-ok (not (same_bool (eqb (counts r).owner_pid 0) (eqb (counts r).owner_ticks 0)))
        _ _ r₆ in
    let idle = reject-eq-ok (not (r.state == "ready") && has_control r) _ r₇ in
    record {
      wire = exceeds_wire-FitsWire (counts r) wire;
      boot_id = not-eq-false _ uuid;
      process = both_zero (counts r).pid (counts r).start_ticks process;
      owner = both_zero (counts r).owner_pid (counts r).owner_ticks owner;
      ready = λ e. is_incomplete-IsReady r (counts r) (ground (arith, eq_iff r.state "ready"));
      idle = λ e. has_control-IsIdle r (ground (arith, eq_iff r.state "ready"));
    }

-- The numbers of an accepted runtime status fit their fields, its boot id has the form of one, process
-- id and start time are 0 together, and so are those of the owner. If it is ready it names a running
-- process, five hooks, a generation, a descriptor above the standard ones, an owner and a known mode;
-- if it is not, it holds no hook, no descriptor and no owner.
pub validate_runtime_status_sound :
    (values : Dict String) (r : Runtime) → validate_runtime_status values ≡ ok r → IsRuntime r
unfolding validate_runtime_status
validate_runtime_status_sound values r h =
    let (_, r₁) =
      reject->>-eq-ok
        (not (has_exactly values runtime_keys)
          || not (is_text (lookup "schema_version" values) "4"))
        _ _ h in
    let (s, _, r₂) = >>=-eq-ok (read_runtime values) _ r₁ in
    let (checked, same) = >>-eq-ok (check_runtime s) (ok s) r₂ in
    subst IsRuntime (ok-injective same) (check_runtime-IsRuntime s checked)
