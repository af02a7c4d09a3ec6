-- ===== src/Civitai/Room.antt =====
-- app/loras/civitai.py: the room on the disk for a file, made by app/loras/eviction.py.
use local_image_generator_se.Common.{
  ℕ, String, Bool, true, false, Option, none, some, List, [], ◌∷◌, ◌++◌, any, ltb, str_eq, length,
  if◌then◌else◌,
}
use local_image_generator_se.Common.Effect.{returned}
use local_image_generator_se.Eviction.{
  LoraFile, Sidecar, Eviction, reclaimed, insufficient_storage, evict_for,
}
use local_image_generator_se.Civitai.{Bytes, Document, Files, Disk, World, Fetching}

abbrev as_sidecar : Option Document → Option Sidecar
as_sidecar none = none
as_sidecar (some d) = some (record { source = some d.source; last_used = d.last_used })

abbrev listed : String → Option Document → Option Bytes → List LoraFile
listed name sidecar none = []
listed name sidecar (some bytes) =
    record { name = name; size = some (length bytes); sidecar = as_sidecar sidecar } ∷ []

-- The files that the eviction finds, under the names it knows them by.
unfoldable pub lora_files : World → Disk → List LoraFile
lora_files world [] = []
lora_files world ((name, f) ∷ rest) =
    listed (world.name_text name) f.sidecar f.safetensors ++ lora_files world rest

-- Whether a file is left under a name.
abbrev pub left : List LoraFile → String → Bool
left files name = any (λ (f : LoraFile). str_eq f.name name) files

abbrev sidecar_left : Option Bytes → Option Document → Option Document
sidecar_left none d = d
sidecar_left (some bytes) d = none

abbrev pub swept : Bool → Files → Files
swept true f = f
swept false f = record f { safetensors = none; sidecar = sidecar_left f.safetensors f.sidecar }

-- The disk when of its files only these are left: a sidecar goes with its file.
unfoldable pub remaining : World → List LoraFile → Disk → Disk
remaining world files [] = []
remaining world files ((name, f) ∷ rest) =
    (name, swept (left files (world.name_text name)) f) ∷ remaining world files rest

abbrev fits : Eviction → Bool
fits (reclaimed n) = true
fits insufficient_storage = false

-- Whether there is room: the files are evicted when less than `needed` is free.
unfoldable pub make_room : World → ℕ → Fetching Bool
unfolding lora_files remaining evict_for
make_room world needed m =
    let (e, files) =
      evict_for world.surroundings (world.clock 2) needed world.dir_max_bytes world.recent_use_days
        (lora_files world m.disk) in
    if ltb world.free needed
    then (returned (fits e), record m { disk = remaining world files m.disk })
    else (returned true, m)
