-- ===== src/Fetches/Lifecycle.antt =====
-- app/queue/fetches.py: the fetches table under any history of the operations of the module.
use local_image_generator_se.Common.{
  ℕ, String, ◌≡◌, refl, sym, Bool, true, Option, none, some, List, [], ◌∷◌, ◌++◌, arith, ◌==◌,
  if◌then◌else◌, Bool-cases, Option-cases, inl, inr, ◌≤◌, ◌+◌, length, In, ◌∙◌,
}
use local_image_generator_se.Common.Keys.{Distinct, Distinct-update, Distinct-append, find_unique}
use local_image_generator_se.Common.Table.{select, find, set_where, update}
use local_image_generator_se.Schema.{Database, LoraFetch, FetchStatus}
use local_image_generator_se.Store.{JobStore, connected, settle}
use local_image_generator_se.Fetches.{
  allowed_transitions, non_terminal, has_request_id, active_version, pending_row, create_pending,
  change_status, as_status, set_status, set_total_bytes, set_progress, set_dest_name, as_failed,
  set_failed,
}

pub data FetchOp : Type 0 where
  create : String → String → Option ℕ → ℕ → FetchOp
  to_status : String → FetchStatus → FetchOp
  total progress : String → ℕ → FetchOp
  dest : String → String → FetchOp
  fail : String → String → String → Bool → FetchOp

-- The store after the operation, which may have raised.
unfoldable pub apply : ℕ → FetchOp → JobStore → JobStore
apply now (create k url m v) s = (create_pending now k url m v s).1
apply now (to_status k t) s = (set_status now k t s).1
apply now (total k n) s = (set_total_bytes now k n s).1
apply now (progress k n) s = (set_progress now k n s).1
apply now (dest k name) s = (set_dest_name now k name s).1
apply now (fail k e m h) s = (set_failed now k e m h s).1

unfoldable pub run : List (ℕ × FetchOp) → JobStore → JobStore
run [] s = s
run ((now, op) ∷ ops) s = run ops (apply now op s)

abbrev pub request_id : LoraFetch → String
request_id f = f.id

abbrev pub actives : ℕ → List LoraFetch → ℕ
actives v fs = length (select (active_version v) fs)

abbrev fetches_on : Option Database → List LoraFetch
fetches_on none = []
fetches_on (some d) = d.lora_fetches

abbrev pub fetches_in : JobStore → List LoraFetch
fetches_in s = fetches_on s.conn

-- At most one active fetch for each version.
abbrev pub OneActive : List LoraFetch → Type 0
OneActive fs = (v : ℕ) → actives v fs ≤ 1

pub record IsSound (fs : List LoraFetch) : Type 0 where
  pub distinct : Distinct request_id fs
  pub one_active : OneActive fs

-- An update that makes no fetch active, of the rows that it changes, adds no active fetch.
actives-update :
    (p : LoraFetch → Bool) (g : LoraFetch → LoraFetch) (v : ℕ) (fs : List LoraFetch)
    → ((f : LoraFetch)
        → In f fs
        → p f ≡ true
        → active_version v (g f) ≡ true
        → active_version v f ≡ true)
    → actives v (update p g fs) ≤ actives v fs
unfolding select update set_where
actives-update p g v [] h = omega arith
actives-update p g v (f ∷ fs) h =
    ground (arith, h f (inl refl), actives-update p g v fs (λ x i. h x (inr i)))

update-IsSound :
    (p : LoraFetch → Bool) (g : LoraFetch → LoraFetch) (fs : List LoraFetch)
    → ((f : LoraFetch) → (g f).id ≡ f.id)
    → ((v : ℕ) (f : LoraFetch)
        → In f fs
        → p f ≡ true
        → active_version v (g f) ≡ true
        → active_version v f ≡ true)
    → IsSound fs
    → IsSound (update p g fs)
update-IsSound p g fs hi ha s = record {
  distinct = Distinct-update request_id p g fs hi s.distinct;
  one_active = λ v. omega (arith, actives-update p g v fs (ha v), s.one_active v);
}

actives-append :
    (v : ℕ) (fs : List LoraFetch) (f : LoraFetch)
    → actives v (fs ++ f ∷ []) ≡ actives v fs + actives v (f ∷ [])
unfolding select
actives-append v [] f = omega arith
actives-append v (x ∷ fs) f = ground (arith, actives-append v fs f)

no_actives : (v : ℕ) (fs : List LoraFetch) → find (active_version v) fs ≡ none → actives v fs ≡ 0
unfolding select find
no_actives v [] h = refl
no_actives v (f ∷ fs) h = ground (arith, no_actives v fs)

pending_actives :
    (v now : ℕ) (k url : String) (m : Option ℕ) (u : ℕ)
    → actives v (pending_row now k url m u ∷ []) ≡ (if u == v then 1 else 0)
unfolding select pending_row
pending_actives v now k url m u = ground arith

create-IsSound :
    (now : ℕ) (k url : String) (m : Option ℕ) (u : ℕ) (d : Database)
    → IsSound d.lora_fetches
    → IsSound (fetches_in (create_pending now k url m u (connected d)).1)
unfolding create_pending
create-IsSound now k url m u d s = elim (Option-cases (find (has_request_id k) d.lora_fetches)) [
  | inr (f, e) ↦ rw e s
  | inl n ↦ elim (Option-cases (find (active_version u) d.lora_fetches)) [
    | inr (f, e) ↦ rw (n, e) s
    | inl a ↦
        rw (n, a)
          (record {
            distinct =
                Distinct-append request_id d.lora_fetches (pending_row now k url m u) n s.distinct;
            one_active = λ v. ground (
              arith,
              s.one_active v,
              no_actives u d.lora_fetches a,
              actives-append v d.lora_fetches (pending_row now k url m u),
              pending_actives v now k url m u,
            );
          })
  ]
]

-- A step of the table towards an active status starts from one.
allowed-non_terminal : (a b : FetchStatus) → allowed_transitions a b ≡ true → non_terminal a ≡ true
unfolding allowed_transitions
allowed-non_terminal a b h = ground arith

change-IsSound :
    (k : String) (t : FetchStatus) (g : LoraFetch → LoraFetch) (d : Database)
    → ((f : LoraFetch) → (g f).id ≡ f.id)
    → ((f : LoraFetch) → (g f).civitai_version_id ≡ f.civitai_version_id)
    → IsSound d.lora_fetches
    → IsSound (fetches_in (settle d (change_status k t g d)).1)
unfolding change_status
change-IsSound k t g d hi hv s = elim (Option-cases (find (has_request_id k) d.lora_fetches)) [
  | inl n ↦ rw n s
  | inr (f, e) ↦ elim (Bool-cases (allowed_transitions f.status t)) [
    | inr no_step ↦ rw (e, no_step) s
    | inl step ↦
        rw (e, step)
          (update-IsSound (has_request_id k) g d.lora_fetches hi
            (λ v x i p a.
              let same : f ≡ x = find_unique request_id k d.lora_fetches f x s.distinct e i p in
              let was : non_terminal f.status ≡ true = allowed-non_terminal f.status t step in
              ground (arith, hv x, same))
            s)
  ]
]

column-IsSound :
    (k : String) (g : LoraFetch → LoraFetch) (d : Database)
    → ((f : LoraFetch) → (g f).id ≡ f.id)
    → ((v : ℕ) (f : LoraFetch) → active_version v (g f) ≡ active_version v f)
    → IsSound d.lora_fetches
    → IsSound (update (has_request_id k) g d.lora_fetches)
column-IsSound k g d hi ha s =
    update-IsSound (has_request_id k) g d.lora_fetches hi (λ v f i p a. sym (ha v f) ∙ a) s

apply_on-IsSound :
    (now : ℕ) (op : FetchOp) (c : Option Database)
    → IsSound (fetches_on c)
    → IsSound (fetches_in (apply now op (record { conn = c })))
unfolding apply set_status set_total_bytes set_progress set_dest_name set_failed create_pending
apply_on-IsSound now (create k url m u) none s = s
apply_on-IsSound now _ none s = s
apply_on-IsSound now (create k url m u) (some d) s = create-IsSound now k url m u d s
apply_on-IsSound now (to_status k t) (some d) s =
    change-IsSound k t (as_status now t) d (λ f. refl) (λ f. refl) s
apply_on-IsSound now (fail k e m h) (some d) s =
    change-IsSound k FetchStatus.failed (as_failed now e m h) d (λ f. refl) (λ f. refl) s
apply_on-IsSound now (total k n) (some d) s = column-IsSound k _ d (λ f. refl) (λ v f. refl) s
apply_on-IsSound now (progress k n) (some d) s = column-IsSound k _ d (λ f. refl) (λ v f. refl) s
apply_on-IsSound now (dest k n) (some d) s = column-IsSound k _ d (λ f. refl) (λ v f. refl) s

-- Over any history of operations, raised or not, ids stay distinct and no version has two active
-- fetches.
pub run-IsSound :
    (ops : List (ℕ × FetchOp)) (s : JobStore)
    → IsSound (fetches_in s)
    → IsSound (fetches_in (run ops s))
unfolding run
run-IsSound [] s h = h
run-IsSound ((now, op) ∷ ops) s h =
    run-IsSound ops (apply now op s) (apply_on-IsSound now op s.conn h)
