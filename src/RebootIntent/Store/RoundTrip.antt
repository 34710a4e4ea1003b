-- ===== src/RebootIntent/Store/RoundTrip.antt =====
-- A new intent reads back: the text of it, of tools/automation/reboot_intent.py.
use zygveil.Base.{
  ℕ, ◌+◌, ◌≤◌, ◌<◌, ap, eq_refl, String, ◌≡◌, refl, true, [], ◌∷◌, Dict, all_chars, count_chars,
  count_chars-join, join, ok, arith,
}
use zygveil.Json.{Json, int, text, obj, entries, fields}
use zygveil.Json.Print.{dumps, quoted, escape, escaped, braced}
use zygveil.Json.Load.{loads}
use zygveil.Json.Plain.{loads-braced}
use zygveil.Json.Members.{PlainDict, print_all, escaped-plain}
use zygveil.Json.Ascii.{Ascii, join-Ascii, braced-Ascii}
use zygveil.Json.Size.{weight, count_chars-braced}
use zygveil.Json.Parse.{put_field}
use zygveil.RebootIntent.Document.{Request, Identity, is_intent, new_intent, validate_intent}
use zygveil.RebootIntent.Document.Texts.{
  ValidTexts, valid_texts, Short, name-Short, state_name-Short, context-Short, sha256-Short,
  counter-Short,
}
use zygveil.RebootIntent.Store.{canonical, parse_intent}

-- The members of a new intent in the order of the file.
abbrev pub sorted_rest : Request → Identity → Dict Json
sorted_rest r i =
    ("expected_state", text r.expected_state)
    ∷ ("operation", text r.operation)
    ∷ ("schema_version", int 2)
    ∷ ("source_boot_id_sha256", text i.boot_id_sha256)
    ∷ ("source_system_server_pid", text i.pid)
    ∷ ("source_system_server_start_ticks", text i.start_ticks)
    ∷ []

abbrev pub sorted_intent : Request → Identity → Dict Json
sorted_intent r i = ("context_id", text r.context_id) ∷ sorted_rest r i

canonical-new_intent :
    (r : Request) (i : Identity)
    → canonical (new_intent r i)
      ≡ join (braced (("context_id", dumps (text r.context_id)) ∷ print_all (sorted_rest r i))) "\n"
unfolding canonical new_intent
canonical-new_intent r i = refl

canonical-sorted_intent :
    (r : Request) (i : Identity) → canonical (sorted_intent r i) ≡ canonical (new_intent r i)
unfolding canonical new_intent
canonical-sorted_intent r i = refl

is_intent-sorted_intent :
    (r : Request) (i : Identity) → is_intent (sorted_intent r i) r ≡ is_intent (new_intent r i) r
unfolding is_intent new_intent
is_intent-sorted_intent r i = refl

sorted_intent-plain : (r : Request) (i : Identity) → ValidTexts r i → PlainDict (sorted_intent r i)
unfolding all_chars
sorted_intent-plain r i v = (
  refl,
  (context-Short r.context_id v.context_id).is_plain,
  (
    refl,
    (state_name-Short r.expected_state v.expected_state).is_plain,
    (
      refl,
      (name-Short r.operation v.operation).is_plain,
      (
        refl,
        omega arith,
        (
          refl,
          (sha256-Short i.boot_id_sha256 v.boot).is_plain,
          (
            refl,
            (counter-Short i.pid v.pid).is_plain,
            (refl, (counter-Short i.start_ticks v.ticks).is_plain, tt),
          ),
        ),
      ),
    ),
  ),
)

-- The text of a valid new intent is read as the object of the same members, in the file's order.
loads-new_intent :
    (r : Request) (i : Identity)
    → ValidTexts r i
    → loads (canonical (new_intent r i)) ≡ ok (obj (fields (sorted_intent r i)))
unfolding put_field fields
loads-new_intent r i v =
    rw (canonical-new_intent r i)
      (loads-braced "context_id" (text r.context_id) (sorted_rest r i) (sorted_intent-plain r i v))

count_chars-text : (s : String) (n : ℕ) → Short s n → count_chars (dumps (text s)) ≤ n + 2
unfolding dumps count_chars
count_chars-text s n h = omega (
  arith,
  count_chars-join "\"" (join (escaped s) "\""),
  count_chars-join (escaped s) "\"",
  ap count_chars (escaped-plain s h.is_plain),
  h.within,
)

count_chars-version : count_chars (dumps (int 2)) ≡ 1
unfolding dumps count_chars join
count_chars-version = refl

-- What a new intent takes beside its six texts: the keys, the version and the punctuation.
weight-sorted_intent :
    (r : Request) (i : Identity)
    → weight (sorted_intent r i)
      ≡ count_chars (dumps (text r.context_id))
        + count_chars (dumps (text r.expected_state))
        + count_chars (dumps (text r.operation))
        + count_chars (dumps (text i.boot_id_sha256))
        + count_chars (dumps (text i.pid))
        + count_chars (dumps (text i.start_ticks))
        + 154
unfolding quoted escaped escape count_chars join
weight-sorted_intent r i = omega (arith, count_chars-version)

pub count_chars-new_intent :
    (r : Request) (i : Identity)
    → ValidTexts r i
    → (0 < count_chars (canonical (new_intent r i)))
      × (count_chars (canonical (new_intent r i)) ≤ 4096)
unfolding count_chars
count_chars-new_intent r i v = rw (canonical-new_intent r i) (
    omega (
      arith,
      count_chars-join
          (braced (("context_id", dumps (text r.context_id)) ∷ print_all (sorted_rest r i))) "\n",
      count_chars-braced "context_id" (text r.context_id) (sorted_rest r i),
      weight-sorted_intent r i,
      count_chars-text r.context_id 128 (context-Short r.context_id v.context_id),
      count_chars-text r.expected_state 64 (state_name-Short r.expected_state v.expected_state),
      count_chars-text r.operation 64 (name-Short r.operation v.operation),
      count_chars-text i.boot_id_sha256 64 (sha256-Short i.boot_id_sha256 v.boot),
      count_chars-text i.pid 20 (counter-Short i.pid v.pid),
      count_chars-text i.start_ticks 20 (counter-Short i.start_ticks v.ticks),
    ))

pub entries-fields : (d : Dict Json) → entries (fields d) ≡ d
unfolding entries fields
entries-fields [] = refl
entries-fields ((k, v) ∷ d) = rw (entries-fields d)

new_intent-Ascii :
    (r : Request) (i : Identity) → ValidTexts r i → Ascii (canonical (new_intent r i))
unfolding all_chars
new_intent-Ascii r i v = rw (canonical-new_intent r i) (
    join-Ascii (braced (("context_id", dumps (text r.context_id)) ∷ print_all (sorted_rest r i)))
      "\n"
      (braced-Ascii "context_id" (text r.context_id) (sorted_rest r i) (sorted_intent-plain r i v))
      refl)

-- The text of a valid new intent passes every check of the reader.
pub parse_intent-new_intent :
    (r : Request) (i : Identity)
    → is_intent (new_intent r i) r ≡ true
    → parse_intent r (canonical (new_intent r i)) ≡ ok (sorted_intent r i)
unfolding parse_intent validate_intent
parse_intent-new_intent r i h =
    let v = valid_texts r i h in
    rw (new_intent-Ascii r i v) (
      rw (loads-new_intent r i v) (
        rw (
          entries-fields (sorted_intent r i),
          is_intent-sorted_intent r i,
          h,
          canonical-sorted_intent r i,
          eq_refl (canonical (new_intent r i)),
        )))
