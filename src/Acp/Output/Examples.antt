-- ===== src/Acp/Output/Examples.antt =====
-- A small outside, whose store keeps the names of what it was given, and runs of the publisher.
use mathlib.Core.List.{flatten, map}
use guigu_agent_bridge.Prelude.{
  ℕ, ◌≤◌, ◌<◌, ◌≡◌, ◌⊎◌, inl, refl, Option, some, true, false, List, [], ◌∷◌, ◌++◌, ok, err, length,
  arith, Result,
}
use guigu_agent_bridge.Prelude.Texts.{Text, codes}
use guigu_agent_bridge.Boundaries.{starts_char, floor_boundary, is_char_boundary}
use guigu_agent_bridge.Boundaries.Chars.{IsText, IsChar}
use guigu_agent_bridge.Boundaries.Utf8.{is_utf8}
use guigu_agent_bridge.Acp.Output.{
  store, quota, DurableOutputPolicy, policy_for, derive, io, Filesystem, OutputSpoolError, validate,
  utf8_ranges, ranges_from, lower,
}
use guigu_agent_bridge.Acp.Output.Ranges.{Tiles, slice, utf8_ranges-Tiles}
use guigu_agent_bridge.Acp.Output.Publisher.{
  Outside, Publisher, new_publisher, Step, append, feed, feed_round, flush_segment, add_deliveries,
}
use guigu_agent_bridge.Acp.Output.Written.{IsPublished, Post}
use guigu_agent_bridge.Acp.Output.Append.{append-IsPublished}
use guigu_agent_bridge.Acp.Output.Policy.{Derived, derive-IsOrdered}

-- The two bytes of U+00E9.
abbrev e_acute : Text
e_acute = 195 ∷ 169 ∷ []

abbrev greeting : Text
greeting = codes "caf" ++ e_acute ++ codes "s"

e_acute-IsChar : IsChar e_acute
unfolding is_utf8
e_acute-IsChar = (refl, (refl, tt), omega arith, refl)

ascii-IsChar : (b : ℕ) → starts_char (some b) ≡ true → is_utf8 (b ∷ []) ≡ true → IsChar (b ∷ [])
ascii-IsChar b h u = (h, tt, omega arith, u)

-- A byte of no character, a stray continuation byte, an overlong form and a surrogate are refused.
refused_test :
    map is_utf8 ((255 ∷ []) ∷ (65 ∷ 128 ∷ []) ∷ (192 ∷ 128 ∷ []) ∷ (237 ∷ 160 ∷ 128 ∷ []) ∷ [])
    ≡ false ∷ false ∷ false ∷ false ∷ []
unfolding is_utf8
refused_test = refl

greeting-IsText : IsText greeting
unfolding is_utf8
greeting-IsText = record {
  chars = codes "c" ∷ codes "a" ∷ codes "f" ∷ e_acute ∷ codes "s" ∷ [];
  valid = (
    ascii-IsChar 99 refl refl,
    (
      ascii-IsChar 97 refl refl,
      (ascii-IsChar 102 refl refl, (e_acute-IsChar, (ascii-IsChar 115 refl refl, tt))),
    ),
  );
  bytes = unfold flatten in refl;
}

empty-IsText : IsText []
empty-IsText = record { chars = []; valid = tt; bytes = unfold flatten in refl }

abbrev outside : Outside (List Text)
outside = record {
  hash = λ s. s;
  stable_txn = λ index digest. digest;
  manifest_json = λ total hash segments. some hash;
  reserve_segment = λ segment w. (ok tt, segment.name ∷ w);
  publish_file = λ name content w. (ok tt, name ∷ w);
  land_segment = λ index w. (ok tt, w);
  seal_set = λ total hash deliveries w. (ok tt, codes "sealed" ∷ w);
}

abbrev policy : DurableOutputPolicy
policy = record (policy_for [] 100) { spool_segment_bytes = 4; matrix_segment_bytes = 4 }

utf8_ranges-Tiles_example :
    (ranges : List (ℕ × ℕ)) × (utf8_ranges (λ s. true) greeting 4 ≡ ok ranges)
    × Tiles greeting 4 0 ranges
    × (flatten (map (slice greeting) ranges) ≡ greeting)
utf8_ranges-Tiles_example =
    utf8_ranges-Tiles (λ s. true) greeting 4 refl greeting-IsText (omega arith) (inl (omega arith))

abbrev fresh : Publisher (List Text)
fresh = new_publisher []

fresh-IsPublished : IsPublished outside policy [] fresh
fresh-IsPublished = record {
  whole = unfold flatten in refl;
  hashed = refl;
  counted = refl;
  small = omega arith;
  files_small = tt;
  described = refl;
  buffer_text = empty-IsText;
  files_text = tt;
}

append-IsPublished_example :
    ((policy.max_output_bytes < length ([] ++ greeting))
      × (append outside policy 14 greeting fresh ≡ some (err (store quota), fresh)))
    ⊎ ((length ([] ++ greeting) ≤ policy.max_output_bytes)
        × ((step : Step outside policy) × (append outside policy 14 greeting fresh ≡ some step)
            × Post outside policy (IsPublished outside policy ([] ++ greeting)) step))
append-IsPublished_example =
    append-IsPublished outside policy 14 [] greeting fresh
      (record { segments_fit = inl (omega arith); deliveries_fit = inl (omega arith) })
      fresh-IsPublished greeting-IsText (omega arith) (omega arith)

-- Two files and what the buffer has left.
abbrev files_after : Option (Step outside policy) → List Text
files_after (some (r, p)) = p.files ++ p.buffer ∷ []
files_after o = []

append_test :
    files_after (append outside policy 14 greeting fresh)
    ≡ codes "caf" ∷ (e_acute ++ codes "s") ∷ []
unfolding append feed feed_round floor_boundary is_char_boundary flush_segment add_deliveries
    utf8_ranges ranges_from lower is_utf8
append_test = refl

abbrev held : Publisher (List Text)
held = record fresh { buffer = e_acute; total = 2; aggregate = e_acute }

-- A relative path without a directory has the empty parent.
abbrev filesystem : Filesystem
filesystem = record {
  parent = λ path. some [];
  join = λ directory name. directory ++ b'/' ∷ name;
  current_dir = ok (codes "/srv");
  canonicalize = λ path. ok path;
}

derive-IsOrdered_example :
    Derived filesystem (codes "state.db") 65_536 (derive filesystem (codes "state.db") 65_536)
derive-IsOrdered_example = derive-IsOrdered filesystem (codes "state.db") 65_536

abbrev root_of : Result DurableOutputPolicy OutputSpoolError → Text
root_of (ok p) = p.spool_root
root_of (err e) = []

derive_test :
    root_of (derive filesystem (codes "state.db") 65_536) ≡ codes "/srv/acp-output-spool-v1"
unfolding derive validate
derive_test = refl

-- The working directory is needed even where the database has a parent.
unneeded_test :
    derive
      (record filesystem { parent = λ path. some (codes "/var"); current_dir = err io })
      (codes "/var/state.db")
      65_536
    ≡ err io
unfolding derive
unneeded_test = refl
