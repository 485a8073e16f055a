-- ===== src/Manipulation/Handler/Selects.antt =====
-- Which entries `inject` applies to a frame, described without the handler: an entry is applied if
-- it was latched before, or if all of its triggers fire at the frame as the entries in front of it
-- have left it.
use cancept.Prelude.{
  ℕ, ◌+◌, ◌≡◌, refl, sym, ap, ◌∙◌, subst, Bool, true, false, ◌||◌, List, [], ◌∷◌, ◌++◌,
  if◌then◌else◌, get_or, Bool-cases, inl, inr, arith,
}
use cancept.Core.Float.{Float}
use cancept.Core.Dto.{DbcCanMessage}
use cancept.Manipulation.Random.{Random}
use cancept.Manipulation.Triggers.{SignalMap, fires_raw_trigger, fires_dbc_trigger, all_of}
use cancept.Manipulation.Types.{
  RawTrigger, DbcTrigger, RawStrategy, DbcStrategy, RawManipulation, DbcManipulation,
}
use cancept.Manipulation.Handler.Verdict.{Applied, to_raw, to_dbc}
use cancept.Manipulation.Handler.{
  RawFrame, ManipulationHandler, apply_raw_effects, apply_raw_strategy, apply_dbc_effects,
  apply_dbc_strategy, raw_triggered, dbc_triggered, latch_raw, latch_dbc, inject_raw_at,
  inject_dbc_at,
}

module _ (F : Float) (R : Random F) where
  open F use {Real}
  open R use {Engine, Chance}

  -- Triggers are asked one after the other up to the first that does not fire: whether all fire, and
  -- the generator after it.
  pub data Asks {T : Type 0} (fires : T → Engine → Bool × Engine)
      : List T → Engine → Bool → Engine → Type 0 where
    all_asked : {e : Engine} → Asks fires [] e true e
    fired :
        {t : T} {ts : List T} {e e' e'' : Engine} {b : Bool}
        → fires t e ≡ (true, e')
        → Asks fires ts e' b e''
        → Asks fires (t ∷ ts) e b e''
    failed :
        {t : T} {ts : List T} {e e' : Engine}
        → fires t e ≡ (false, e')
        → Asks fires (t ∷ ts) e false e'

  all_of-Asks :
      {T : Type 0} (fires : T → Engine → Bool × Engine) (ts : List T) (e : Engine)
      → Asks fires ts e (all_of F R fires ts e).0 (all_of F R fires ts e).1
  unfolding all_of
  all_of-Asks fires [] e = all_asked
  all_of-Asks fires (t ∷ ts) e = elim (Bool-cases (fires t e).0) [
    | inl k ↦
        rw (k, all_of) (fired (ap (λ b. (b, (fires t e).1)) k) (all_of-Asks fires ts (fires t e).1))
    | inr k ↦ rw (k, all_of) (failed (ap (λ b. (b, (fires t e).1)) k))
  ]

  -- What a strategy makes of a frame and the generator: only effects change them.
  unfoldable pub after_raw : RawStrategy → RawFrame → Engine → RawFrame × Engine
  after_raw (RawStrategy.effect_strategy es) f e =
      let (payload, e') = apply_raw_effects F R es f.payload e in
      (record f { payload = payload }, e')
  after_raw _ f e = (f, e)

  unfoldable pub after_dbc :
      DbcStrategy Real → SignalMap → DbcCanMessage Real → Engine → DbcCanMessage Real × Engine
  after_dbc (DbcStrategy.effect_strategy es) map x e =
      let (ss, e') = apply_dbc_effects F R es map x.signal_values e in
      (record x { signal_values = ss }, e')
  after_dbc _ map x e = (x, e)

  apply_raw_strategy-after :
      (s : RawStrategy) (h : ManipulationHandler F R) (f : RawFrame)
      → ((apply_raw_strategy F R s h f).1, (apply_raw_strategy F R s h f).0.random)
        ≡ after_raw s f h.random
  unfolding apply_raw_strategy after_raw
  apply_raw_strategy-after (RawStrategy.effect_strategy es) h f = refl
  apply_raw_strategy-after (RawStrategy.delayed_strategy us) h f = elim (Bool-cases h.frame_drop) [
    | inl e ↦ rw e refl
    | inr e ↦ rw e refl
  ]
  apply_raw_strategy-after RawStrategy.drop_strategy h f = refl

  apply_dbc_strategy-after :
      (s : DbcStrategy Real) (map : SignalMap) (h : ManipulationHandler F R)
      (x : DbcCanMessage Real)
      → ((apply_dbc_strategy F R s map h x).1, (apply_dbc_strategy F R s map h x).0.random)
        ≡ after_dbc s map x h.random
  unfolding apply_dbc_strategy after_dbc
  apply_dbc_strategy-after (DbcStrategy.effect_strategy es) map h x = refl
  apply_dbc_strategy-after (DbcStrategy.delayed_strategy us) map h x =
      elim (Bool-cases h.frame_drop) [ inl e ↦ rw e refl | inr e ↦ rw e refl ]
  apply_dbc_strategy-after DbcStrategy.drop_strategy map h x = refl
  apply_dbc_strategy-after (DbcStrategy.insert_strategy us o) map h x = refl

  latch_raw-random :
      (m : RawManipulation Chance) (i : ℕ) (h : ManipulationHandler F R)
      → (latch_raw F R m i h).random ≡ h.random
  unfolding latch_raw
  latch_raw-random m i h = ground arith

  latch_dbc-random :
      (m : DbcManipulation Real Chance) (i : ℕ) (h : ManipulationHandler F R)
      → (latch_dbc F R m i h).random ≡ h.random
  unfolding latch_dbc
  latch_dbc-random m i h = ground arith

  -- The strategies of the entries from index `i` on that are applied, in order, to a frame and with
  -- a generator. An entry is applied exactly if it was latched before, or, if it was not, all of its
  -- triggers fire at the frame as it is then.
  pub data SelectsRaw (latched : List Bool)
      : List (RawManipulation Chance) → ℕ → Engine → RawFrame → List (Applied F R) → Type 0 where
    done : {i : ℕ} {e : Engine} {f : RawFrame} → SelectsRaw latched [] i e f []
    stays :
        {m : RawManipulation Chance} {ms : List (RawManipulation Chance)} {i : ℕ} {e : Engine}
        {f : RawFrame} {list : List (Applied F R)}
        → get_or latched i false ≡ true
        → SelectsRaw latched ms
            (i + 1)
            (after_raw m.strategy f e).1
            (after_raw m.strategy f e).0
            list
        → SelectsRaw latched (m ∷ ms) i e f (to_raw m.strategy f ∷ list)
    fires :
        {m : RawManipulation Chance} {ms : List (RawManipulation Chance)} {i : ℕ} {e e' : Engine}
        {f : RawFrame} {list : List (Applied F R)}
        → get_or latched i false ≡ false
        → Asks (λ t. fires_raw_trigger F R t f.id f.dlc f.payload) m.trigger e true e'
        → SelectsRaw latched ms
            (i + 1)
            (after_raw m.strategy f e').1
            (after_raw m.strategy f e').0
            list
        → SelectsRaw latched (m ∷ ms) i e f (to_raw m.strategy f ∷ list)
    passed :
        {m : RawManipulation Chance} {ms : List (RawManipulation Chance)} {i : ℕ} {e e' : Engine}
        {f : RawFrame} {list : List (Applied F R)}
        → get_or latched i false ≡ false
        → Asks (λ t. fires_raw_trigger F R t f.id f.dlc f.payload) m.trigger e false e'
        → SelectsRaw latched ms (i + 1) e' f list
        → SelectsRaw latched (m ∷ ms) i e f list

  -- The same for the signals of a frame, with the generator at the end.
  pub data SelectsDbc (latched : List Bool) (map : SignalMap)
      : List (DbcManipulation Real Chance)
        → ℕ
        → Engine
        → DbcCanMessage Real
        → List (Applied F R)
        → Engine
        → Type 0 where
    done : {i : ℕ} {e : Engine} {x : DbcCanMessage Real} → SelectsDbc latched map [] i e x [] e
    stays :
        {m : DbcManipulation Real Chance} {ms : List (DbcManipulation Real Chance)} {i : ℕ}
        {e last : Engine} {x : DbcCanMessage Real} {list : List (Applied F R)}
        → get_or latched i false ≡ true
        → SelectsDbc latched map ms
            (i + 1)
            (after_dbc m.strategy map x e).1
            (after_dbc m.strategy map x e).0
            list
            last
        → SelectsDbc latched map (m ∷ ms) i e x (to_dbc m.strategy map x ∷ list) last
    fires :
        {m : DbcManipulation Real Chance} {ms : List (DbcManipulation Real Chance)} {i : ℕ}
        {e e' last : Engine} {x : DbcCanMessage Real} {list : List (Applied F R)}
        → get_or latched i false ≡ false
        → Asks (λ t. fires_dbc_trigger F R t map x.signal_values) m.trigger e true e'
        → SelectsDbc latched map ms
            (i + 1)
            (after_dbc m.strategy map x e').1
            (after_dbc m.strategy map x e').0
            list
            last
        → SelectsDbc latched map (m ∷ ms) i e x (to_dbc m.strategy map x ∷ list) last
    passed :
        {m : DbcManipulation Real Chance} {ms : List (DbcManipulation Real Chance)} {i : ℕ}
        {e e' last : Engine} {x : DbcCanMessage Real} {list : List (Applied F R)}
        → get_or latched i false ≡ false
        → Asks (λ t. fires_dbc_trigger F R t map x.signal_values) m.trigger e false e'
        → SelectsDbc latched map ms (i + 1) e' x list last
        → SelectsDbc latched map (m ∷ ms) i e x list last

  -- One round of the loop in front of the others.
  pub raw_cons :
      (latched : List Bool) (m : RawManipulation Chance) (ms : List (RawManipulation Chance))
      (i : ℕ) (h : ManipulationHandler F R) (f : RawFrame) (list : List (Applied F R))
      → get_or h.raw_latched i false ≡ get_or latched i false
      → SelectsRaw latched ms
          (i + 1)
          (inject_raw_at F R m i h f).0.random
          (inject_raw_at F R m i h f).1
          list
      → SelectsRaw latched (m ∷ ms) i h.random f (
          (if get_or h.raw_latched i false || (raw_triggered F R m h f).0
            then to_raw m.strategy f ∷ []
            else [])
          ++ list)
  unfolding inject_raw_at raw_triggered
  raw_cons latched m ms i h f list same =
      let fire : RawTrigger Chance → Engine → Bool × Engine =
        λ t. fires_raw_trigger F R t f.id f.dlc f.payload in
      let asked = all_of F R fire m.trigger h.random in
      let asks = all_of-Asks fire m.trigger h.random in
      elim (Bool-cases (get_or h.raw_latched i false)) [
        | inl old ↦ rw old (λ rest. stays (sym same ∙ old) (
            subst (λ p. SelectsRaw latched ms (i + 1) p.1 p.0 list)
              (apply_raw_strategy-after m.strategy h f) rest))
        | inr new ↦ elim (Bool-cases asked.0) [
          | inl k ↦
              rw (new, k)
                (λ rest.
                  fires (sym same ∙ new)
                    (subst (λ b. Asks fire m.trigger h.random b asked.1) k asks)
                    (subst (λ p. SelectsRaw latched ms (i + 1) p.1 p.0 list)
                      (apply_raw_strategy-after m.strategy _ f
                        ∙ ap (after_raw m.strategy f)
                            (latch_raw-random m i (record h { random = asked.1 })))
                      rest))
          | inr k ↦
              rw (new, k)
                (λ rest.
                  passed (sym same ∙ new)
                    (subst (λ b. Asks fire m.trigger h.random b asked.1) k asks) rest)
        ]
      ]

  pub dbc_cons :
      (latched : List Bool) (m : DbcManipulation Real Chance)
      (ms : List (DbcManipulation Real Chance)) (i : ℕ) (map : SignalMap)
      (h : ManipulationHandler F R) (x : DbcCanMessage Real) (list : List (Applied F R))
      (last : Engine)
      → get_or h.dbc_latched i false ≡ get_or latched i false
      → SelectsDbc latched map ms
          (i + 1)
          (inject_dbc_at F R m i map h x).0.random
          (inject_dbc_at F R m i map h x).1
          list
          last
      → SelectsDbc latched map
          (m ∷ ms)
          i
          h.random
          x
          ((if get_or h.dbc_latched i false || (dbc_triggered F R m map h x).0
              then to_dbc m.strategy map x ∷ []
              else [])
            ++ list)
          last
  unfolding inject_dbc_at dbc_triggered
  dbc_cons latched m ms i map h x list last same =
      let fire : DbcTrigger Real Chance → Engine → Bool × Engine =
        λ t. fires_dbc_trigger F R t map x.signal_values in
      let asked = all_of F R fire m.trigger h.random in
      let asks = all_of-Asks fire m.trigger h.random in
      elim (Bool-cases (get_or h.dbc_latched i false)) [
        | inl old ↦ rw old (λ rest. stays (sym same ∙ old) (
            subst (λ p. SelectsDbc latched map ms (i + 1) p.1 p.0 list last)
              (apply_dbc_strategy-after m.strategy map h x) rest))
        | inr new ↦ elim (Bool-cases asked.0) [
          | inl k ↦
              rw (new, k)
                (λ rest.
                  fires (sym same ∙ new)
                    (subst (λ b. Asks fire m.trigger h.random b asked.1) k asks)
                    (subst (λ p. SelectsDbc latched map ms (i + 1) p.1 p.0 list last)
                      (apply_dbc_strategy-after m.strategy map _ x
                        ∙ ap (after_dbc m.strategy map x)
                            (latch_dbc-random m i (record h { random = asked.1 })))
                      rest))
          | inr k ↦
              rw (new, k)
                (λ rest.
                  passed (sym same ∙ new)
                    (subst (λ b. Asks fire m.trigger h.random b asked.1) k asks) rest)
        ]
      ]
