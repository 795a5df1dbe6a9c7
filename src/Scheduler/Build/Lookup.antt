-- ===== src/Scheduler/Build/Lookup.antt =====
-- Each reference of an accepted schedule finds its item.
use syver.Prelude.{
  String, ◌≡◌, refl, sym, ◌∙◌, ap, subst, ◌≢◌, inl, inr, List, [], ◌∷◌, map, Memᴰ, All, All-mem,
  update, update_self, update_ne,
}
use syver.Resource.{Resource, ref_of}
use syver.Scheduler.Cycles.Sound.{Grounded}
use syver.Scheduler.Build.{ScheduledResource, refs, by_ref}
use syver.Scheduler.Build.Graph.{dependencies}
use syver.Scheduler.Build.Known.{Distinct, Named}
use syver.Scheduler.Build.Sound.{IsSchedule, StandFor}

refs-Memᴰ :
    (schedule : List ScheduledResource) {r : String}
    → Memᴰ r (refs schedule)
    → (item : ScheduledResource) × Memᴰ item schedule × (item.ref ≡ r)
refs-Memᴰ (item ∷ items) (Memᴰ.head e) = (item, Memᴰ.head refl, sym e)
refs-Memᴰ (item ∷ items) (Memᴰ.tail m) =
    let (other, m', e) = refs-Memᴰ items m in (other, Memᴰ.tail m', e)
refs-Memᴰ [] m = elim m [ ]

Memᴰ-refs :
    (schedule : List ScheduledResource) (item : ScheduledResource)
    → Memᴰ item schedule
    → Memᴰ item.ref (refs schedule)
Memᴰ-refs [] item m = elim m [ ]
Memᴰ-refs (x ∷ xs) item (Memᴰ.head e) = Memᴰ.head (ap (λ (i : ScheduledResource). i.ref) e)
Memᴰ-refs (x ∷ xs) item (Memᴰ.tail m) = Memᴰ.tail (Memᴰ-refs xs item m)

ref_of-Memᴰ :
    (resources : List Resource) (res : Resource)
    → Memᴰ res resources
    → Memᴰ (ref_of res) (map ref_of resources)
ref_of-Memᴰ [] res m = elim m [ ]
ref_of-Memᴰ (x ∷ xs) res (Memᴰ.head e) = Memᴰ.head (ap ref_of e)
ref_of-Memᴰ (x ∷ xs) res (Memᴰ.tail m) = Memᴰ.tail (ref_of-Memᴰ xs res m)

Distinct-unique :
    (schedule : List ScheduledResource)
    → Distinct (refs schedule)
    → (i j : ScheduledResource) → Memᴰ i schedule
    → Memᴰ j schedule
    → i.ref ≡ j.ref
    → i ≡ j
Distinct-unique [] d i j m n e = elim m [ ]
Distinct-unique (x ∷ xs) (new, d) i j (Memᴰ.head p) (Memᴰ.head q) e = p ∙ sym q
Distinct-unique (x ∷ xs) (new, d) i j (Memᴰ.head p) (Memᴰ.tail n) e = absurd (
    All-mem (λ r. x.ref ≢ r) (Memᴰ-refs xs j n) new
      (ap (λ (k : ScheduledResource). k.ref) (sym p) ∙ e))
Distinct-unique (x ∷ xs) (new, d) i j (Memᴰ.tail m) (Memᴰ.head q) e = absurd (
    All-mem (λ r. x.ref ≢ r) (Memᴰ-refs xs i m) new
      (ap (λ (k : ScheduledResource). k.ref) (sym q) ∙ sym e))
Distinct-unique (x ∷ xs) (new, d) i j (Memᴰ.tail m) (Memᴰ.tail n) e = Distinct-unique xs d i j m n e

by_ref_outside :
    (m : String → List String) (schedule : List ScheduledResource) (r : String)
    → All (λ x. r ≢ x) (refs schedule)
    → by_ref m schedule r ≡ m r
unfolding by_ref
by_ref_outside m [] r h = refl
by_ref_outside m (item ∷ items) r (ne, h) =
    by_ref_outside (update m item.ref item.deps) items r h
    ∙ update_ne m item.ref r item.deps (λ e. ne (sym e))

by_ref_at :
    (m : String → List String) (schedule : List ScheduledResource) (item : ScheduledResource)
    → Distinct (refs schedule)
    → Memᴰ item schedule
    → by_ref m schedule item.ref ≡ item.deps
unfolding by_ref
by_ref_at m [] item d k = elim k [ ]
by_ref_at m (x ∷ xs) item (new, d) (Memᴰ.head e) =
    rw e (by_ref_outside (update m x.ref x.deps) xs x.ref new ∙ update_self m x.ref x.deps)
by_ref_at m (x ∷ xs) item (new, d) (Memᴰ.tail k) = by_ref_at (update m x.ref x.deps) xs item d k

StandFor-Named :
    (resources : List Resource) (deps canonical : List String)
    → StandFor resources deps canonical
    → (d : String) → Memᴰ d canonical
    → Named resources d
StandFor-Named resources [] [] h d m = elim m [ ]
StandFor-Named resources [] (r ∷ rs) h d m = elim h [ ]
StandFor-Named resources (x ∷ xs) [] h d m = elim m [ ]
StandFor-Named resources (x ∷ xs) (r ∷ rs) (inl (same, named), h) d (Memᴰ.head e) = rw e named
StandFor-Named resources (x ∷ xs) (r ∷ rs) (inr (res, listed, named, key), h) d (Memᴰ.head e) =
    (res, listed, named ∙ sym e)
StandFor-Named resources (x ∷ xs) (r ∷ rs) (first, h) d (Memᴰ.tail m) =
    StandFor-Named resources xs rs h d m

-- A schedule in which each reference names one item, each prerequisite names an item, and no
-- reference is above a cycle.
pub record IsSound (schedule : List ScheduledResource) : Type 0 where
  pub known :
      (item : ScheduledResource)
      → Memᴰ item schedule
      → (d : String) → Memᴰ d item.deps
      → (other : ScheduledResource) × Memᴰ other schedule × (other.ref ≡ d)
  pub grounded :
      (item : ScheduledResource) → Memᴰ item schedule → Grounded (dependencies schedule) item.ref
  pub deps_at :
      (item : ScheduledResource) → Memᴰ item schedule → dependencies schedule item.ref ≡ item.deps
  pub unique : (i j : ScheduledResource) → Memᴰ i schedule → Memᴰ j schedule → i.ref ≡ j.ref → i ≡ j

pub IsSchedule-IsSound :
    (resources : List Resource) (schedule : List ScheduledResource)
    → IsSchedule resources schedule
    → IsSound schedule
IsSchedule-IsSound resources schedule s = record {
  known = λ item m d m'.
      let (res, listed, named) =
        StandFor-Named resources item.resource.depends_on item.deps
          (All-mem (λ (i : ScheduledResource). StandFor resources i.resource.depends_on i.deps) m
            s.resolved)
          d m' in
      refs-Memᴰ schedule (
        subst (λ r. Memᴰ r (refs schedule)) named
          (subst (λ l. Memᴰ (ref_of res) l) (sym s.named) (ref_of-Memᴰ resources res listed)));
  grounded =
      λ item m. All-mem (Grounded (dependencies schedule)) (Memᴰ-refs schedule item m) s.grounded;
  deps_at = λ item m. by_ref_at (λ ref. []) schedule item s.distinct m;
  unique = Distinct-unique schedule s.distinct;
}
