-- ===== src/Save/Load.antt =====
-- src/save.ts: loading what was saved, and what a load fills in.
use pokeage.Prelude.{
  String, Bool, Bool-cases, Option-cases, ◌==◌, subst, ℕ, ◌≡◌, inl, inr, refl, ap, false, Option,
  none, some, List, [], ◌∷◌, map,
}
use pokeage.Num.{Num}
use pokeage.Types.{MonsterInstance, Trainer}
use pokeage.Engine.State.{same, given}
use pokeage.Save.{
  SavedGame, Loaded, or_else, loaded, failed, save_version, strip_mon, normalize_mon, save_trainer,
  load_trainer, serialize_trainer, deserialize_trainer,
}

-- The monster without its cached moves.
abbrev pub without_moves : {F : Type 0} → MonsterInstance F → MonsterInstance F
without_moves m = record m { moves = none }

-- The place of a restored trainer has a name.
restored_somewhere : (place : Option String) → same (or_else "seedling" (given place)) "" ≡ false
restored_somewhere none = refl
restored_somewhere (some name) = elim (Bool-cases (same name "")) [
  | inl empty ↦ rw empty refl
  | inr named ↦ rw named named
]

module _ {F : Type 0} ⦃n : Num F⦄ where
  normalize-strip_all :
      (ms : List (MonsterInstance F)) → map normalize_mon (map strip_mon ms) ≡ map without_moves ms
  unfolding normalize_mon strip_mon
  normalize-strip_all [] = refl
  normalize-strip_all (m ∷ ms) = ap (◌∷◌ (without_moves m)) (normalize-strip_all ms)

  -- What was saved loads, with nothing lost but the cached moves, for a trainer at some place. The
  -- text may be any that parses to what it was made of.
  pub deserialize_trainer-serialize_trainer :
      {J : Type 0} (stringify : SavedGame F → J) (parse : J → Option (Option (SavedGame F)))
      (t : Trainer F) (rng_state : Option ℕ)
      → parse (stringify (save_trainer t rng_state)) ≡ some (some (save_trainer t rng_state))
      → same t.location "" ≡ false
      → deserialize_trainer parse (serialize_trainer stringify t rng_state)
        ≡ loaded (record t { team = map without_moves t.team; box = map without_moves t.box })
  unfolding deserialize_trainer serialize_trainer load_trainer save_trainer
  deserialize_trainer-serialize_trainer stringify parse t rng_state json somewhere =
      rw (json, deserialize_trainer)
        (rw (normalize-strip_all t.team, normalize-strip_all t.box, somewhere) refl)

  -- What loaded is at no place.
  abbrev lost : Loaded F → Bool
  lost (loaded t) = same t.location ""
  lost (failed e) = false

  load_trainer-lost : (save : Option (SavedGame F)) → lost (load_trainer save) ≡ false
  unfolding load_trainer
  load_trainer-lost none = refl
  load_trainer-lost (some save) = elim (Option-cases save.version) [
    | inl e ↦ rw (e, load_trainer) refl
    | inr (version, e) ↦
        rw (e, load_trainer)
          (elim (Bool-cases (version == save_version)) [
            | inr other ↦ rw other refl
            | inl current ↦ rw current (elim (Option-cases save.trainer) [
              | inl absent ↦ rw absent refl
              | inr (trainer, there) ↦ rw there (restored_somewhere trainer.location)
            ])
          ])
  ]

  -- Whatever loads, though fields may be missing that a load fills in, has been made whole: the loaded
  -- trainer is at some place, and saving and loading it again gives the same trainer, but for the cached
  -- moves. Its text must parse to what it was made of.
  pub load_trainer_again :
      {J : Type 0} (stringify : SavedGame F → J) (parse : J → Option (Option (SavedGame F)))
      (save : Option (SavedGame F)) (t : Trainer F) (rng_state : Option ℕ)
      → load_trainer save ≡ loaded t
      → parse (stringify (save_trainer t rng_state)) ≡ some (some (save_trainer t rng_state))
      → (same t.location "" ≡ false)
        × (deserialize_trainer parse (serialize_trainer stringify t rng_state)
            ≡ loaded (record t { team = map without_moves t.team; box = map without_moves t.box }))
  load_trainer_again stringify parse save t rng_state loads json =
      let somewhere = subst (λ l. lost l ≡ false) loads (load_trainer-lost save) in
      (somewhere, deserialize_trainer-serialize_trainer stringify parse t rng_state json somewhere)
