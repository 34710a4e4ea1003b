-- ===== src/Tests/FinalInputs.antt =====
-- The theorem about receipts at a concrete file.
use zygveil.Base.{◌≡◌, refl, true, [], ◌∷◌, Dict, count_chars, all_chars, ok, arith}
use zygveil.SafeRead.{regular, Stat, Reading, private_mode, read_checked, same_stat}
use zygveil.SafeRead.Exact.{IsPrivate}
use zygveil.Json.{Json, int, entries}
use zygveil.Json.Load.{loads, value}
use zygveil.RebootIntent.Store.{canonical}
use zygveil.FinalInputs.{opened, receipt_rule, parse_receipt, load_private_receipt}
use zygveil.FinalInputs.Receipt.{load_private_receipt_sound}

abbrev stat : Stat
stat = record {
  dev = 1;
  ino = 2;
  kind = regular;
  perm = private_mode;
  uid = 1000;
  nlink = 1;
  size = 21;
  mtime_ns = 9;
}

abbrev reading : Reading
reading = record { before = stat; blocks = "{\"schema_version\":1}\n" ∷ []; after = stat }

abbrev receipt : Dict Json
receipt = ("schema_version", int 1) ∷ []

loaded : load_private_receipt 1000 (opened reading) ≡ ok receipt
unfolding load_private_receipt read_checked parse_receipt loads canonical all_chars value entries
loaded = refl

load_private_receipt_sound_example :
    IsPrivate 1000 4096 stat
    × (read_checked 1000 receipt_rule reading ≡ ok (canonical receipt))
    × (count_chars (canonical receipt) ≡ 21)
    × (same_stat stat stat ≡ true)
unfolding count_chars
load_private_receipt_sound_example =
    load_private_receipt_sound 1000 reading receipt (ground arith) loaded
