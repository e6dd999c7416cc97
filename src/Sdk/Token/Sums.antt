-- ===== src/Sdk/Token/Sums.antt =====
-- sdk/src/token.ts: the balance from the two queries, and the program of a mint.
use pokeage.Prelude.{
  ℕ, ◌*◌, ◌+◌, ◌≡◌, ◌⊎◌, ◌↔◌, ◌∙◌, ap, sym, inl, inr, refl, arith, none, some, List, [], ◌∷◌,
  length, All, ◌==◌, if◌then◌else◌, Bool-cases, Option-cases,
}
use mathlib.Core.Option.{some-injective}
use pokeage.Num.{Num}
use pokeage.Sdk.Keys.{Web3}
use pokeage.Sdk.Chain.{Chain, IsChain, by_mint, AccountInfo, TokenAmount, Spl, IsSpl}
use pokeage.Sdk.Token.{sum_accounts, balance_for_program, get_token_balance, detect_token_program}

abbrev pub total : List TokenAmount → ℕ
total [] = 0
total (a ∷ rest) = a.amount + total rest

-- Every account reports these decimals.
abbrev pub Reports : ℕ → List TokenAmount → Type 0
Reports d = All (λ a. a.decimals ≡ d)

sum_accounts-total :
    (accounts : List TokenAmount) (amount decimals : ℕ)
    → (sum_accounts accounts amount decimals).0 ≡ amount + total accounts
unfolding sum_accounts
sum_accounts-total [] amount decimals = omega arith
sum_accounts-total (a ∷ rest) amount decimals =
    omega (arith, sum_accounts-total rest (amount + a.amount) a.decimals)

sum_accounts-Reports :
    (d : ℕ) (accounts : List TokenAmount) (amount decimals : ℕ)
    → Reports d accounts
    → (sum_accounts accounts amount decimals).1 ≡ (if length accounts == 0 then decimals else d)
unfolding sum_accounts
sum_accounts-Reports d [] amount decimals h = ground arith
sum_accounts-Reports d (a ∷ rest) amount decimals h =
    ground (arith, sum_accounts-Reports d rest (amount + a.amount) a.decimals h.1, h.0)

module _ (F : Type 0) ⦃n : Num F⦄ {P : Type 0} ⦃web3 : Web3 P⦄ ⦃spl : Spl P⦄ (chain : Chain P) where
  -- On a connection that goes by the mint where one is given, both queries return all of the owner's
  -- accounts of the mint, and the balance is twice what they hold. If every account reports the same decimals, then so does the balance,
  -- and an owner without accounts has decimals 0.
  pub get_token_balance_doubles :
      (laws : IsChain chain) (owner mint : P) (d : ℕ)
      → Reports d (chain.get_token_accounts owner (by_mint mint))
      → let held = chain.get_token_accounts owner (by_mint mint) in
        let balance = get_token_balance F chain owner mint in
        (balance.amount ≡ 2 * total held) × (balance.decimals ≡ (if length held == 0 then 0 else d))
  unfolding get_token_balance balance_for_program
  get_token_balance_doubles laws owner mint d h =
      let held = chain.get_token_accounts owner (by_mint mint) in
      rw
        (
          laws.mint_first owner mint spl.token_program_id,
          laws.mint_first owner mint web3.token_2022_program_id,
        )
        (
          omega (arith, sum_accounts-total held 0 0),
          ground (arith, sum_accounts-Reports d held 0 0 h),
        )

module _ {P : Type 0} ⦃web3 : Web3 P⦄ ⦃spl : Spl P⦄ (laws : IsSpl P) (chain : Chain P) where
  chosen :
      (owner program : P)
      → (if spl.equals owner web3.token_2022_program_id
          then some web3.token_2022_program_id
          else if spl.equals owner spl.token_program_id
          then some spl.token_program_id
          else none)
        ≡ some program
      → (owner ≡ program)
        × ((program ≡ web3.token_2022_program_id) ⊎ (program ≡ spl.token_program_id))
  chosen owner program = elim (Bool-cases (spl.equals owner web3.token_2022_program_id)) [
    | inl new ↦ rw new (λ e.
        let same = some-injective _ _ e in
        ((laws.equals_iff owner web3.token_2022_program_id).0 new ∙ same, inl (sym same)))
    | inr other ↦ rw other (elim (Bool-cases (spl.equals owner spl.token_program_id)) [
      | inl old ↦ rw old (λ e.
          let same = some-injective _ _ e in
          ((laws.equals_iff owner spl.token_program_id).0 old ∙ same, inr (sym same)))
      | inr neither ↦ rw neither (λ e. cc)
    ])
  ]

  chooses :
      (program : P)
      → (program ≡ web3.token_2022_program_id) ⊎ (program ≡ spl.token_program_id)
      → (if spl.equals program web3.token_2022_program_id
          then some web3.token_2022_program_id
          else if spl.equals program spl.token_program_id
          then some spl.token_program_id
          else none)
        ≡ some program
  chooses program (inl e) =
      let new = (laws.equals_iff program web3.token_2022_program_id).1 e in rw new (ap some (sym e))
  chooses program (inr e) =
      let old = (laws.equals_iff program spl.token_program_id).1 e in
      elim (Bool-cases (spl.equals program web3.token_2022_program_id)) [
        | inl new ↦
            rw new (ap some (sym ((laws.equals_iff program web3.token_2022_program_id).0 new)))
        | inr other ↦ rw (other, old) (ap some (sym e))
      ]

  -- The program that is found for a mint owns the mint's account, and is one of the two token programs.
  pub detect_token_program_iff :
      (mint program : P)
      → (detect_token_program chain mint ≡ some program) ↔ (
          (info : AccountInfo P) × (chain.get_account_info mint ≡ some info)
          × (info.owner ≡ program)
          × ((program ≡ web3.token_2022_program_id) ⊎ (program ≡ spl.token_program_id)))
  unfolding detect_token_program
  detect_token_program_iff mint program = (
    elim (Option-cases (chain.get_account_info mint)) [
      | inl missing ↦ rw (missing, detect_token_program) (λ e. cc)
      | inr (info, there) ↦
          rw (there, detect_token_program)
            (λ e. (info, refl, (chosen info.owner program e).0, (chosen info.owner program e).1))
    ],
    λ (info, there, owned, which).
        rw (there, detect_token_program) (rw owned (chooses program which)),
  )
