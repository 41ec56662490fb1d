-- ===== src/Registry/CachingClient/Attribute.antt =====
-- The attribute `#[cached(time, result = true, sync_writes = true, key, convert, with_cached_flag)]` of
-- the cached crate, as a parameter: how it calls the body of a function, and what it documents of
-- the values that it keeps. `sync_writes` lets one call of a function run at a time.
use sigstore_rs.Prelude.{
  ℕ, ◌+◌, ◌<◌, String, Bool, true, ◌≡◌, refl, sym, ap, ◌∙◌, subst, ◌⊎◌, inl, inr, arith,
  ok-injective, some-injective, Option, some, List, ◌∷◌, Memᴰ, ok,
}
use sigstore_rs.Errors.{Outcome}

-- `cached::Return`
pub record Return (V : Type 0) : Type 0 where
  pub value : V
  pub was_cached : Bool

-- the body of the function, over a state; `none` is a panic
abbrev pub Body : Type 0 → Type 0 → Type 0
Body W V = W → Option (Outcome (Return V)) × W

pub record Called (V Store W : Type 0) : Type 0 where
  pub outcome : Option (Outcome (Return V))
  pub store : Store
  pub world : W

pub record Cached (W V : Type 0) : Type 1 where
  pub Store : Type 0
  pub empty : Store
  -- `time`, the converted key, the present second, the body
  pub call : ℕ → String → ℕ → Body W V → Store → W → Called V Store W

-- `Holds store k v t`: under the key k, the value v was stored at the time t
abbrev pub Holding : {W V : Type 0} → Cached W V → Type 1
Holding {V = V} C = C.Store → String → V → ℕ → Type 0

module _ {W V : Type 0} (C : Cached W V) (Holds : Holding C) where
  -- the call gives a kept value that is younger than the lifetime, and does not run the body
  pub record IsHit (time : ℕ) (key : String) (now : ℕ) (body : Body W V) (store : C.Store)
      (world : W) : Type 0 where
    pub value : V
    pub stored_at : ℕ
    pub kept : Holds store key value stored_at
    pub young : now < stored_at + time
    pub outcome :
        (C.call time key now body store world).outcome
        ≡ some (ok (record { value = value; was_cached = true }))
    pub world_same : (C.call time key now body store world).world ≡ world

  -- the call is the body's
  pub record IsMiss (time : ℕ) (key : String) (now : ℕ) (body : Body W V) (store : C.Store)
      (world : W) : Type 0 where
    pub outcome : (C.call time key now body store world).outcome ≡ (body world).0
    pub world_same : (C.call time key now body store world).world ≡ (body world).1
    -- a value is stored
    pub stored :
        (r : Return V)
        → (body world).0 ≡ some (ok r)
        → Holds (C.call time key now body store world).store key r.value now

  -- What the crate documents: nothing is kept at first; a value that is younger than the lifetime is
  -- found; a call stores at most the value of its own body; and other keys are left alone.
  pub record IsCached : Type 0 where
    pub empty : (k : String) (v : V) (t : ℕ) → ¬ Holds C.empty k v t
    pub called :
        (time : ℕ) (key : String) (now : ℕ) (body : Body W V) (store : C.Store) (world : W)
        → IsHit time key now body store world ⊎ IsMiss time key now body store world
    pub hit :
        (time : ℕ) (key : String) (now : ℕ) (body : Body W V) (store : C.Store) (world : W) (v : V)
        (t : ℕ)
        → Holds store key v t
        → now < t + time
        → (C.call time key now body store world).outcome
          ≡ some (ok (record { value = v; was_cached = true }))
    pub origin :
        (time : ℕ) (key : String) (now : ℕ) (body : Body W V) (store : C.Store) (world : W)
        (k : String) (v : V) (t : ℕ)
        → Holds (C.call time key now body store world).store k v t
        → Holds store k v t
          ⊎ ((k ≡ key)
              × (t ≡ now)
              × ((r : Return V) × ((body world).0 ≡ some (ok r)) × (r.value ≡ v)))

  -- What the crate documents of an entry: no call removes a value before its
  -- lifetime is over, be it a call with its own key or with another.
  abbrev pub KeepsYoung : Type 0
  KeepsYoung =
      (time : ℕ) (key : String) (now : ℕ) (body : Body W V) (store : C.Store) (world : W)
      (k : String) (v : V) (t : ℕ)
      → Holds store k v t
      → now < t + time
      → Holds (C.call time key now body store world).store k v t

-- The calls that were made: the argument, the second, and the state they were made in.
abbrev pub History : Type 0 → Type 0 → Type 0
History Arg W = List (Arg × ℕ × W)

-- A function under the attribute: its key and its body.
module _ {Arg W V : Type 0} (C : Cached W V) (Holds : Holding C) (time : ℕ) (key : Arg → String)
    (body : Arg → Body W V) where
  -- A call of the history with this key, at this time, whose body gave this value.
  pub record IsPast (history : History Arg W) (k : String) (v : V) (t : ℕ) : Type 0 where
    pub arg : Arg
    pub world : W
    pub called : Memᴰ (arg, t, world) history
    pub same_key : key arg ≡ k
    pub returned : Return V
    pub answered : (body arg world).0 ≡ some (ok returned)
    pub same_value : returned.value ≡ v

  IsPast-later :
      (call : Arg × ℕ × W) (history : History Arg W) (k : String) (v : V) (t : ℕ)
      → IsPast history k v t
      → IsPast (call ∷ history) k v t
  IsPast-later call history k v t p = record {
    arg = p.arg;
    world = p.world;
    called = Memᴰ.tail p.called;
    same_key = p.same_key;
    returned = p.returned;
    answered = p.answered;
    same_value = p.same_value;
  }

  abbrev pub Remembers : C.Store → History Arg W → Type 0
  Remembers store history = (k : String) (v : V) (t : ℕ) → Holds store k v t → IsPast history k v t

  module _ (laws : IsCached C Holds) (arg : Arg) (now : ℕ) (store : C.Store) (world : W)
      (history : History Arg W) (h : Remembers store history) where
    pub Remembers-call :
        Remembers
          (C.call time (key arg) now (body arg) store world).store
          ((arg, now, world) ∷ history)
    Remembers-call k v t p = elim (laws.origin time (key arg) now (body arg) store world k v t p) [
      | inl q ↦ IsPast-later (arg, now, world) history k v t (h k v t q)
      | inr (same_key, same_time, (returned, answered, same_value)) ↦
          subst (λ t'. IsPast ((arg, now, world) ∷ history) k v t') (sym same_time)
            (record {
              arg = arg;
              world = world;
              called = Memᴰ.head refl;
              same_key = sym same_key;
              returned = returned;
              answered = answered;
              same_value = same_value;
            })
    ]

    -- What a call gives was given by the body, for the same key, less than the lifetime ago.
    pub call-IsPast :
        0 < time
        → (r : Return V) → (C.call time (key arg) now (body arg) store world).outcome ≡ some (ok r)
        → (t : ℕ) × (now < t + time) × IsPast ((arg, now, world) ∷ history) (key arg) r.value t
    call-IsPast positive r e = elim (laws.called time (key arg) now (body arg) store world) [
      | inl q ↦ (
        q.stored_at,
        q.young,
        subst (λ v. IsPast ((arg, now, world) ∷ history) (key arg) v q.stored_at)
            (ap (λ x. x.value) (ok-injective (some-injective (sym q.outcome ∙ e))))
            (IsPast-later (arg, now, world) history (key arg) q.value q.stored_at
              (h (key arg) q.value q.stored_at q.kept)),
      )
      | inr q ↦ (
        now,
        omega arith,
        record {
          arg = arg;
          world = world;
          called = Memᴰ.head refl;
          same_key = refl;
          returned = r;
          answered = sym q.outcome ∙ e;
          same_value = refl;
        },
      )
    ]
