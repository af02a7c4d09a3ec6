-- ===== src/Eviction.antt =====
-- app/loras/eviction.py: room for a LoRA file that is to be fetched, made by deleting fetched files
-- that were not used of late. A file stands for its path under civitai/ and the sidecar beside it,
-- an instant of `last_used` counts from `datetime.min`.
pub mod Sizes
pub mod Spared
use local_image_generator_se.Common.{
  ℕ, suc, ◌+◌, ◌-◌, ◌*◌, String, Bool, true, false, ◌&&◌, ◌||◌, not, Option, none, some, List, [],
  ◌∷◌, ◌++◌, any, is_some, leb, ltb, str_eq, if◌then◌else◌,
}
use local_image_generator_se.Common.Keys.{keyed}
use local_image_generator_se.Common.Table.{select, order_by, by}
use local_image_generator_se.Schema.{Database, Job, JobStatus, queued, running}

pub record Sidecar : Type 0 where
  pub source : Option String
  pub last_used : Option ℕ

-- `name` is the canonical name, `size` what `stat` reports, and `sidecar` what `_read_sidecar`
-- gives, whose `last_used` is that of `_last_used_dt`.
pub record LoraFile : Type 0 where
  pub name : String
  pub size : Option ℕ
  pub sidecar : Option Sidecar

-- The value of the key `loras`, and of each entry its name when the entry is a dict with a text
-- under `name`.
pub data LorasValue : Type 0 where
  missing not_a_list : LorasValue
  entries : List (Option String) → LorasValue

-- What `json.loads` makes of `input_json`.
pub data Body : Type 0 where
  undecodable not_a_dict : Body
  dict : LorasValue → Body

pub data Eviction : Type 0 where
  reclaimed : ℕ → Eviction
  insufficient_storage : Eviction

-- The store at each of the numbered queries, the parser, and whether the file of a name can be
-- unlinked.
pub record Surroundings : Type 0 where
  pub store_at : ℕ → Database
  pub loads : String → Body
  pub can_unlink : String → Bool

abbrev pub size_of : LoraFile → ℕ
size_of f = known f.size
  where
    known : Option ℕ → ℕ
    known none = 0
    known (some n) = n

unfoldable pub directory_size : List LoraFile → ℕ
directory_size [] = 0
directory_size (f ∷ files) = size_of f + directory_size files

abbrev pub names_in : List (Option String) → List String
names_in [] = []
names_in (none ∷ es) = names_in es
names_in (some n ∷ es) = n ∷ names_in es

abbrev pub body_names : Body → List String
body_names (dict (entries es)) = names_in es
body_names _ = []

unfoldable pub is_non_terminal : JobStatus → Bool
is_non_terminal queued = true
is_non_terminal running = true
is_non_terminal _ = false

unfoldable pub names_of : (String → Body) → List Job → List String
names_of loads [] = []
names_of loads (job ∷ jobs) = body_names (loads job.input_json) ++ names_of loads jobs

unfoldable pub non_terminal_lora_names : (String → Body) → Database → List String
unfolding names_of is_non_terminal
non_terminal_lora_names loads d =
    names_of loads (select (λ (j : Job). is_non_terminal j.status) d.jobs)

abbrev pub protected : Surroundings → ℕ → String → Bool
protected env k name = any (str_eq name) (non_terminal_lora_names env.loads (env.store_at k))

abbrev pub is_civitai : Option String → Bool
is_civitai none = false
is_civitai (some s) = str_eq s "civitai"

abbrev pub is_recent : ℕ → Option ℕ → Bool
is_recent cutoff none = false
is_recent cutoff (some t) = ltb cutoff t

abbrev pub may_go : ℕ → Option Sidecar → Bool
may_go cutoff none = false
may_go cutoff (some s) = is_civitai s.source && not (is_recent cutoff s.last_used)

-- The tests of the loop that collects candidates.
unfoldable pub is_candidate : Surroundings → ℕ → LoraFile → Bool
is_candidate env cutoff f =
    may_go cutoff f.sidecar && (not (protected env 0 f.name) && is_some f.size)

abbrev pub sort_key : LoraFile → ℕ
sort_key f = used f.sidecar
  where
    used : Option Sidecar → ℕ
    used none = 0
    used (some s) = instant s.last_used
      where
        instant : Option ℕ → ℕ
        instant none = 0
        instant (some t) = t

unfoldable pub candidates : Surroundings → ℕ → List LoraFile → List LoraFile
unfolding is_candidate
candidates env cutoff files = order_by (by sort_key) (select (is_candidate env cutoff) files)

-- os.unlink
unfoldable pub unlink : String → List LoraFile → List LoraFile
unlink name = select (λ f. not (keyed (λ (g : LoraFile). g.name) name f))

-- The loop over the candidates, from the query `k` on.
unfoldable pub evict : Surroundings → ℕ → ℕ → List LoraFile → ℕ → List LoraFile → ℕ × List LoraFile
unfolding unlink
evict env required k [] total files = (total, files)
evict env required k (c ∷ cs) total files =
    let skipped = evict env required (suc k) cs total files in
    let deleted = evict env required (suc k) cs (total + size_of c) (unlink c.name files) in
    if leb required total
    then (total, files)
    else if protected env k c.name
    then skipped
    else if env.can_unlink c.name
    then deleted
    else skipped

abbrev pub ended : ℕ → ℕ × List LoraFile → Eviction × List LoraFile
ended required (total, files) =
    (if ltb total required then insufficient_storage else reclaimed total, files)

-- `files` are those under civitai/; a missing folder has none of them, and then nothing is evicted.
unfoldable pub evict_for : Surroundings → ℕ → ℕ → ℕ → ℕ → List LoraFile → Eviction × List LoraFile
unfolding directory_size candidates evict
evict_for env now incoming_size dir_max_bytes recent_use_days files =
    let current_size = directory_size files in
    let required = incoming_size + current_size - dir_max_bytes in
    let cutoff = now - recent_use_days * 86400000000 in
    if leb (incoming_size + current_size) dir_max_bytes
    then (reclaimed 0, files)
    else ended required (evict env required 1 (candidates env cutoff files) 0 files)
