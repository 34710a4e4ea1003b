-- ===== src/FinalInputs/Receipt.antt =====
-- What a loaded receipt of tools/automation/location_final_inputs.py is.
use zygveil.Base.{
  ℕ, String, ◌≡◌, ap, subst, ◌∙◌, true, not, ◌==◌, Dict, all_chars, ltb, count_chars, ok, >>=-eq-ok,
  reject->>-eq-ok, ok-injective, not-eq-false, eq_iff,
}
use zygveil.SafeRead.{Reading, read_checked, same_stat}
use zygveil.SafeRead.Exact.{Bounded, IsPrivate, read_checked_sound}
use zygveil.Json.{Json}
use zygveil.Json.Load.{loads}
use zygveil.RebootIntent.Store.{canonical}
use zygveil.FinalInputs.{
  opened, receipt_rule, receipt_json, receipt_object, parse_receipt, load_private_receipt,
}

parse_receipt-canonical :
    (raw : String) (values : Dict Json) → parse_receipt raw ≡ ok values → raw ≡ canonical values
unfolding parse_receipt
parse_receipt-canonical raw values h =
    let (_, r₁) = reject->>-eq-ok (not (all_chars (λ c. ltb c 128) raw)) _ _ h in
    let (decoded, _, r₂) = >>=-eq-ok (receipt_json (loads raw)) _ r₁ in
    let (found, _, r₃) = >>=-eq-ok (receipt_object decoded) _ r₂ in
    let (same, r₄) = reject->>-eq-ok (not (raw == canonical found)) _ (ok found) r₃ in
    (eq_iff raw (canonical found)).0 (not-eq-false _ same) ∙ ap canonical (ok-injective r₄)

-- A receipt that is loaded has been read, whole and unchanged, from a private file of the caller's of at
-- most 4096 bytes, and the file's bytes are the canonical text of the receipt. It is assumed that the system hands over no more bytes than asked for.
pub load_private_receipt_sound :
    (getuid : ℕ) (r : Reading) (values : Dict Json)
    → Bounded r.before.size r.blocks
    → load_private_receipt getuid (opened r) ≡ ok values
    → IsPrivate getuid 4096 r.before
      × (read_checked getuid receipt_rule r ≡ ok (canonical values))
      × (count_chars (canonical values) ≡ r.before.size)
      × (same_stat r.before r.after ≡ true)
unfolding load_private_receipt
load_private_receipt_sound getuid r values bounded h =
    let (raw, read, parsed) = >>=-eq-ok (read_checked getuid receipt_rule r) _ h in
    let text = parse_receipt-canonical raw values parsed in
    let (private, size, stable) = read_checked_sound getuid receipt_rule r raw bounded read in
    (
      private,
      subst (λ x. read_checked getuid receipt_rule r ≡ ok x) text read,
      subst (λ x. count_chars x ≡ r.before.size) text size,
      stable,
    )
