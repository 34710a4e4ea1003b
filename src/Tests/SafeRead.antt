-- ===== src/Tests/SafeRead.antt =====
-- The theorems about the private file reader at a concrete file.
use zygveil.Base.{String, ◌≡◌, refl, true, List, [], ◌∷◌, count_chars, join, ok, arith}
use zygveil.SafeRead.{regular, Stat, Reading, Rule, private_mode, same_stat, read_checked}
use zygveil.SafeRead.Exact.{
  Serves, done, next, IsPrivate, read_checked_sound, read_checked_complete,
}

abbrev rule : Rule
rule = record { limit = 1024; identity_error = "invalid"; changed_error = "changed" }

abbrev stat : Stat
stat = record {
  dev = 1;
  ino = 2;
  kind = regular;
  perm = private_mode;
  uid = 1000;
  nlink = 1;
  size = 3;
  mtime_ns = 9;
}

abbrev two_blocks : List String
two_blocks = "ab" ∷ "c" ∷ []

abbrev reading : Reading
reading = record { before = stat; blocks = two_blocks; after = stat }

read_checked_sound_example :
    IsPrivate 1000 1024 stat × (count_chars "abc" ≡ 3) × (same_stat stat stat ≡ true)
unfolding read_checked count_chars
read_checked_sound_example = read_checked_sound 1000 rule reading "abc" (ground arith) refl

private : IsPrivate 1000 1024 stat
private = record {
  kind = refl;
  perm = refl;
  owner = refl;
  one_link = refl;
  nonempty = omega arith;
  bounded = omega arith;
}

serves : Serves "abc" two_blocks
unfolding join
serves = next "ab" refl (next "c" refl done)

read_checked_complete_example : read_checked 1000 rule reading ≡ ok "abc"
unfolding count_chars
read_checked_complete_example =
    read_checked_complete 1000 rule stat "abc" two_blocks private refl serves
