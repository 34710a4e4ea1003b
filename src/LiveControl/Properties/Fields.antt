-- ===== src/LiveControl/Properties/Fields.antt =====
-- What `parse_properties` of tools/automation/location_live_control.py makes of the lines.
use zygveil.Base.{
  String, ◌≡◌, refl, sym, ap, subst, ◌∙◌, Bool, true, false, not, ◌&&◌, ◌==◌, Option, none, some,
  List, [], ◌∷◌, ◌++◌, all, Dict, has_key, insert, NodupKeys, insert-NodupKeys, insert-new,
  append_assoc, append_nil, strip, split_once, splitlines, ok, >>=-eq-ok, ok-injective, Bool-cases,
  inl, inr, eq_iff, arith,
}
use zygveil.LiveControl.Properties.{add_field, add_split, add_line, add_lines, parse_properties}

-- The entries of the lines, in their order: one for each line that is not blank, of what stands
-- before and behind its first `=`.
pub data Entries : List String → Dict String → Type 0 where
  done : Entries [] []
  blank :
      {line : String} {lines : List String} {d : Dict String}
      → strip line ≡ ""
      → Entries lines d
      → Entries (line ∷ lines) d
  field :
      {line : String} {lines : List String} {d : Dict String} (left right : String)
      → split_once b'=' (strip line) ≡ some (left, right)
      → Entries lines d
      → Entries (line ∷ lines) ((strip left, strip right) ∷ d)

abbrev pub is_filled : Dict String → Bool
is_filled d = all (λ x. not (x.0 == "") && not (x.1 == "")) d

is_filled-append :
    (a b : Dict String) → is_filled a ≡ true → is_filled b ≡ true → is_filled (a ++ b) ≡ true
is_filled-append [] b h k = k
is_filled-append (x ∷ a) b h k = ground (arith, is_filled-append a b (ground arith) k)

-- What the entries so far are, and what they become.
pub record IsValid (d : Dict String) : Type 0 where
  pub nodup : NodupKeys d
  pub filled : is_filled d ≡ true

-- A field that is entered.
record IsAdded (d : Dict String) (left right : String) (e : Dict String) : Type 0 where
  last : e ≡ d ++ ((strip left, strip right) ∷ [])
  valid : IsValid e

add_field-IsAdded :
    (d e : Dict String) (left right : String)
    → IsValid d
    → add_field d (left, right) ≡ ok e
    → IsAdded d left right e
unfolding add_field
add_field-IsAdded d e left right valid h =
    let fresh : has_key d (strip left) ≡ false = ground arith in
    let key : (strip left == "") ≡ false = ground arith in
    let value : (strip right == "") ≡ false = ground arith in
    let same : insert (strip left) (strip right) d ≡ e =
      ok-injective (rw (key, value, fresh) at h) in
    let appended = insert-new (strip left) (strip right) d fresh in
    record {
      last = sym same ∙ appended;
      valid = record {
        nodup = subst NodupKeys same (insert-NodupKeys (strip left) (strip right) d valid.nodup);
        filled =
            subst (λ x. is_filled x ≡ true) (sym appended ∙ same)
              (is_filled-append d ((strip left, strip right) ∷ []) valid.filled
                (rw (key, value) refl));
      };
    }

-- What the lines from here on add.
record Reads (d : Dict String) (lines : List String) (e : Dict String) : Type 0 where
  added : Dict String
  entries : Entries lines added
  whole : e ≡ d ++ added
  valid : IsValid e

-- A line that is not blank.
add_split-IsAdded :
    (d e : Dict String) (parts : Option (String × String))
    → IsValid d
    → add_split d parts ≡ ok e
    → (left right : String) × (parts ≡ some (left, right)) × IsAdded d left right e
unfolding add_split
add_split-IsAdded d e none valid h = absurd (ground arith)
add_split-IsAdded d e (some (left, right)) valid h =
    (left, right, refl, add_field-IsAdded d e left right valid h)

add_lines-Reads :
    (d e : Dict String) (lines : List String)
    → IsValid d
    → add_lines d lines ≡ ok e
    → Reads d lines e
unfolding add_lines add_line
add_lines-Reads d e [] valid h =
    let same : d ≡ e = ok-injective h in
    record {
      added = [];
      entries = done;
      whole = sym same ∙ sym (append_nil d);
      valid = subst IsValid same valid;
    }
add_lines-Reads d e (line ∷ lines) valid h =
    let (next, first, rest) = >>=-eq-ok (add_line d line) _ h in
    elim (Bool-cases (strip line == "")) [
      | inl empty ↦
          let same : d ≡ next = ok-injective (rw empty at first) in
          let r = add_lines-Reads next e lines (subst IsValid same valid) rest in
          record {
            added = r.added;
            entries = blank ((eq_iff (strip line) "").0 empty) r.entries;
            whole = rw same r.whole;
            valid = r.valid;
          }
      | inr full ↦
          let (left, right, split, a) =
            add_split-IsAdded d next (split_once b'=' (strip line)) valid (rw full at first) in
          let r = add_lines-Reads next e lines a.valid rest in
          record {
            added = (strip left, strip right) ∷ r.added;
            entries = field left right split r.entries;
            whole =
                r.whole
                ∙ ap (λ x. x ++ r.added) a.last
                ∙ append_assoc d ((strip left, strip right) ∷ []) r.added;
            valid = r.valid;
          }
    ]

-- An accepted text has one entry for each line that is not blank, in the order of the lines, split at
-- the first `=`; no key is there twice, and no key or value is empty.
pub parse_properties_sound :
    (text : String) (values : Dict String)
    → parse_properties text ≡ ok values
    → Entries (splitlines text) values × IsValid values
unfolding parse_properties
parse_properties_sound text values h =
    let r = add_lines-Reads [] values (splitlines text) (record { nodup = tt; filled = refl }) h in
    (subst (Entries (splitlines text)) (sym r.whole) r.entries, r.valid)
