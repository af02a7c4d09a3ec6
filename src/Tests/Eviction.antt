-- ===== src/Tests/Eviction.antt =====
-- Examples for app/loras/eviction.py.
use local_image_generator_se.Common.{
  ℕ, ◌+◌, ◌*◌, ◌-◌, ◌≤◌, ◌≡◌, refl, ◌⊎◌, inl, String, true, some, List, [], ◌∷◌, In,
}
use local_image_generator_se.Common.Keys.{Distinct}
use local_image_generator_se.Common.Table.{select, order_by, insert_by}
use local_image_generator_se.Eviction.{
  LoraFile, Surroundings, dict, entries, reclaimed, directory_size, is_candidate, candidates,
  unlink, evict, evict_for, non_terminal_lora_names,
}
use local_image_generator_se.Eviction.Sizes.{name_of, evict_for-fits}
use local_image_generator_se.Eviction.Spared.{IsStale, Unused, evict_for-spares}
use local_image_generator_se.Tests.Samples.{database}

abbrev fetched : String → ℕ → ℕ → LoraFile
fetched name size last_used = record {
  name = name;
  size = some size;
  sidecar = some (record { source = some "civitai"; last_used = some last_used });
}

abbrev stale_file : LoraFile
stale_file = fetched "civitai/old_2" 300 0

abbrev used_file : LoraFile
used_file = fetched "civitai/used_1" 500 0

abbrev files : List LoraFile
files = used_file ∷ stale_file ∷ []

-- The queued and the running job name the first file.
abbrev surroundings : Surroundings
surroundings = record {
  store_at = λ k. database;
  loads = λ t. dict (entries (some "civitai/used_1" ∷ []));
  can_unlink = λ name. true;
}

files-Distinct : Distinct name_of files
files-Distinct = ((refl, tt), (tt, tt))

makes_room : evict_for surroundings 100 250 1000 0 files ≡ (reclaimed 300, used_file ∷ [])
unfolding evict_for directory_size candidates is_candidate evict unlink non_terminal_lora_names
    select order_by insert_by
makes_room = refl

evict_for-fits_example :
    (directory_size (used_file ∷ []) + 300 ≡ directory_size files)
    × (250 + directory_size (used_file ∷ []) ≤ 1000)
evict_for-fits_example =
    evict_for-fits surroundings 100 250 1000 0 300 files (used_file ∷ []) files-Distinct makes_room

evict_for-spares_example :
    In used_file (evict_for surroundings 100 250 1000 0 files).1
    ⊎ (IsStale (100 - 0 * 86400000000) used_file
        × Unused surroundings 0 used_file.name
        × (k : ℕ) × (1 ≤ k)
        × Unused surroundings k used_file.name)
evict_for-spares_example =
    evict_for-spares surroundings 100 250 1000 0 files used_file files-Distinct (inl refl)
