-- ===== src/Server/Cache/Examples.antt =====
-- The read cache on concrete requests.
use tarwyn.Base.{
  ◌≡◌, refl, Bool, true, false, none, some, [], ◌∷◌, utf8, ◌==◌, text_eq, length, if◌then◌else◌,
  ◌&&◌, ◌||◌, is_some, ltb, inl,
}
use tarwyn.Base.Assoc.{lookup}
use tarwyn.Kind.{Kind, Prost, string}
use tarwyn.Registry.State.{max_topics, starts_with}
use tarwyn.RingBuffer.{new}
use tarwyn.Server.Cache.{
  Cache, CompareAndSet, read, store, matches, compare_and_set, tables, sort_texts, insert_text,
  text_leb, under_prefix,
}
use tarwyn.Server.Cache.Reach.{CacheReach, started, passed_on, asked, read-store}
use tarwyn.Server.Cache.Swap.{compare_and_set_once}
use tarwyn.Server.Convert.{into_kind}
use tarwyn.Value.{bool}

abbrev silent_prost : Prost
silent_prost = record {
  write_bytes_list = λ _. [];
  read_bytes_list = λ _. none;
  write_coordinates = λ _. [];
  read_coordinates = λ _. none;
  write_curve = λ _. [];
  write_curves = λ _. [];
  read_curves = λ _. none;
  write_curves_list = λ _. [];
}

-- Equality of strings, which is all that is compared here.
abbrev same_string : Kind → Kind → Bool
same_string (string a) (string b) = a == b
same_string _ _ = false

abbrev claim : CompareAndSet
claim = record {
  channel = utf8 "/leader";
  expect_absent = true;
  expected = none;
  value = some (some (string (utf8 "one")));
}

abbrev rival : CompareAndSet
rival = record {
  channel = utf8 "/leader";
  expect_absent = true;
  expected = none;
  value = some (some (string (utf8 "two")));
}

abbrev stored : Cache
stored = store silent_prost (utf8 "/lamp") (bool true) []

abbrev claimed : Cache
claimed = (compare_and_set same_string claim stored).0

abbrev claimed_reached : CacheReach silent_prost same_string claimed
claimed_reached = asked claim (passed_on (utf8 "/lamp") (bool true) started)

read-store_example :
    read (store silent_prost (utf8 "/lamp") (bool false) claimed) (utf8 "/lamp") ≡ (
      if (utf8 "/lamp" == utf8 "/lamp")
        && (is_some (read claimed (utf8 "/lamp")) || ltb (length claimed) max_topics)
      then some (into_kind silent_prost (bool false))
      else read claimed (utf8 "/lamp"))
read-store_example =
    read-store silent_prost same_string claimed (utf8 "/lamp") (utf8 "/lamp") (bool false)
      claimed_reached

granted : (compare_and_set same_string claim []).1 ≡ (true, some (string (utf8 "one")))
unfolding compare_and_set matches read lookup
granted = refl

compare_and_set_once_example :
    compare_and_set same_string rival (compare_and_set same_string claim []).0
    ≡ ((compare_and_set same_string claim []).0, (false, some (string (utf8 "one"))))
compare_and_set_once_example =
    compare_and_set_once same_string claim rival [] (string (utf8 "one")) tt granted refl (inl refl)

listed :
    tables (utf8 "/") ((utf8 "/b", new 1) ∷ (utf8 "c", new 1) ∷ (utf8 "/a", new 1) ∷ [])
    ≡ utf8 "/a" ∷ utf8 "/b" ∷ []
unfolding tables sort_texts insert_text text_leb under_prefix starts_with
listed = refl
