-- ===== src/Escrow/Examples.antt =====
-- Tests and examples of the escrow service.
use farm_backend.Prelude.{◌≡◌, refl, ap, sym, none, some, true, [], ◌∷◌, inl, some_inj}
use farm_backend.Prelude.Int.{pos, ◌+ℤ◌, ◌-ℤ◌, negate, int_laws}
use farm_backend.Prelude.Number.{finite}
use farm_backend.Prelude.Text.{codes}
use farm_backend.Prelude.Table.{find, modify, insert, find_first, sum_by}
use farm_backend.Store.{
  Db, Escrow, ok, moved, adjust_wallet, write_wallet, create_transaction, create_entry,
  update_many_escrow, claim_escrow, transaction, commit, pure, gets, or_raise, raise_if, next,
  ◌>>=◌, ◌>>◌,
}
use farm_backend.Store.Balance.{total}
use farm_backend.Escrow.Money.{remaining_amount}
use farm_backend.Escrow.Debt.{owed, Solvent}
use farm_backend.Escrow.Settle.{IsRowOf, execute_release-Keeps, Keeps}
use farm_backend.Fees.{
  FeeKey, compute_fee, exact_fee, round_div, default_rule, default_percent, fee_defaults,
}
use farm_backend.Escrow.Money.{credit_superadmin, pay_platform, platform_wallet, active_wallet}
use farm_backend.Escrow.Create.{CreateDto, create}
use farm_backend.Escrow.Release.{
  release_row, execute_release, release_tx, release_locked, pay_seller, status_eq,
  release_transaction,
}
use farm_backend.Escrow.Partial.{partial_tx, release_partial}
use farm_backend.Escrow.Refund.{execute_refund, refund_row}
use farm_backend.Escrow.Attachment.{Attachment}
use farm_backend.Escrow.Dispute.{dispute}
use farm_backend.Escrow.Giveback.{execute_refund-Keeps}
use farm_backend.Escrow.Checks.{create-Keeps}
use farm_backend.Escrow.Disputes.{dispute-Keeps}
use farm_backend.Escrow.Requests.{
  release_escrow, tables_after, begin, serve, release_partial-Keeps, service_conserves_money,
}
use farm_backend.Escrow.Once.{IsRefused, settled_at_most_once}
use farm_backend.Escrow.Returns.{refund_returns, release_returns}
use farm_backend.Fixture.{user, env, market, deal, env-IsFeeFair, no_media, wallet, with_pin_only}

market-Solvent : Solvent market
unfolding find owed sum_by remaining_amount
market-Solvent = record { covered = λ k w found. grind int_laws }

deal-IsRowOf : IsRowOf 1 deal market
unfolding find
deal-IsRowOf r found = ap (λ (e : Escrow). e.buyer_wallet_id) (some_inj (sym found))

execute_release-Keeps_example : Keeps market (execute_release env 1 deal none market)
execute_release-Keeps_example =
    execute_release-Keeps env 1 deal none market env-IsFeeFair market-Solvent deal-IsRowOf

-- The released escrow pays the seller 98.5 FARM and the platform 1.5.
abbrev released : Db
released = (execute_release env 1 deal none market).1

execute_release_pays : execute_release env 1 deal none market ≡ (ok 10_000_000_000, released)
unfolding execute_release release_tx release_locked pay_seller credit_superadmin pay_platform
    platform_wallet active_wallet status_eq remaining_amount adjust_wallet write_wallet
    create_transaction create_entry update_many_escrow claim_escrow transaction commit pure gets
    or_raise raise_if next ◌>>=◌ ◌>>◌ find find_first modify insert release_transaction compute_fee
    exact_fee round_div default_rule default_percent fee_defaults
execute_release_pays = refl

released_wallets :
    released.wallets
    ≡ (1, wallet 1 (pos 40_000_000_000) (pos 0))
      ∷ (2, wallet 2 (pos 9_850_000_000) (pos 0))
      ∷ (3, wallet 3 (pos 150_000_000) (pos 0))
      ∷ []
unfolding execute_release release_tx release_locked pay_seller credit_superadmin pay_platform
    platform_wallet active_wallet status_eq remaining_amount adjust_wallet write_wallet
    create_transaction create_entry update_many_escrow claim_escrow transaction commit pure gets
    or_raise raise_if next ◌>>=◌ ◌>>◌ find find_first modify insert release_transaction compute_fee
    exact_fee round_div default_rule default_percent fee_defaults ◌+ℤ◌ negate ◌-ℤ◌
released_wallets = refl

released-unused : find env.new_escrow released.escrows ≡ none
unfolding execute_release release_tx release_locked pay_seller credit_superadmin pay_platform
    platform_wallet active_wallet status_eq remaining_amount adjust_wallet write_wallet
    create_transaction create_entry update_many_escrow claim_escrow transaction commit pure gets
    or_raise raise_if next ◌>>=◌ ◌>>◌ find find_first modify insert release_transaction compute_fee
    exact_fee round_div default_rule default_percent fee_defaults
released-unused = refl

-- The buyer asks for the release once more.
abbrev later : Db
later = tables_after env no_media (release_escrow 1 1 with_pin_only) released

settled_at_most_once_example :
    IsRefused (execute_release env 1 deal none) later
    × IsRefused (execute_refund env 1 deal none) later
    × IsRefused (transaction (partial_tx env 1 deal 1 2 100 (codes "seed"))) later
settled_at_most_once_example =
    settled_at_most_once no_media env env 1 deal deal none none 10_000_000_000 market released later
      1 2 100 (codes "seed") (inl execute_release_pays)
      (serve {db = released} env (release_escrow 1 1 with_pin_only) begin env-IsFeeFair
        released-unused tt)

execute_refund-Keeps_example : Keeps market (execute_refund env 1 deal none market)
execute_refund-Keeps_example =
    execute_refund-Keeps env 1 deal none market market-Solvent deal-IsRowOf

release_partial-Keeps_example :
    Keeps market
      (release_partial env 1 1 (finite (pos 2_500_000_000)) (codes "1234") (codes "seed") market)
release_partial-Keeps_example =
    release_partial-Keeps env 1 1 (finite (pos 2_500_000_000)) (codes "1234") (codes "seed") market
      env-IsFeeFair market-Solvent

-- Another 20 FARM from user 1 to user 2.
abbrev order : CreateDto
order = record {
  seller_identifier = codes "brian";
  amount = finite (pos 2_000_000_000);
  title = codes "Beans";
  description = none;
  auto_release_days = none;
  proof = with_pin_only;
}

create-Keeps_example : Keeps market (create env 1 order market)
unfolding find
create-Keeps_example = create-Keeps env 1 order market market-Solvent refl

abbrev no_file : Attachment
no_file = record { url = []; base64 = []; mime_type = [] }

dispute-Keeps_example : Keeps market (dispute env no_media 1 2 (codes "late") no_file market)
dispute-Keeps_example = dispute-Keeps env no_media 1 2 (codes "late") no_file market market-Solvent

service_conserves_money_example :
    let db = tables_after env no_media (release_escrow 1 1 with_pin_only) market in
    (total db ≡ total market) × Solvent db
unfolding find
service_conserves_money_example =
    service_conserves_money no_media market
      (tables_after env no_media (release_escrow 1 1 with_pin_only) market) market-Solvent
      (serve {db = market} env (release_escrow 1 1 with_pin_only) begin env-IsFeeFair refl tt)

refund_returns_example :
    let (out, d) = execute_refund env 1 deal none market in
    (out ≡ ok (remaining_amount deal))
    × (find 1 d.escrows ≡ some (refund_row 86_400_000 none deal))
    × (find 1 d.wallets
        ≡ some (
            moved
              (pos 0)
              (negate (pos (remaining_amount deal)))
              (wallet 1 (pos 50_000_000_000) (pos 10_000_000_000))))
unfolding find status_eq
refund_returns_example =
    refund_returns env 1 1 deal deal (wallet 1 (pos 50_000_000_000) (pos 10_000_000_000)) none
      market refl refl refl refl

release_returns_example :
    let fee = compute_fee (env.rule FeeKey.escrow_release) (finite (pos 10_000_000_000)) 2 in
    let (out, d) = execute_release env 1 deal none market in
    (out ≡ ok 10_000_000_000)
    × (find 1 d.escrows ≡ some (release_row 86_400_000 none deal))
    × (find 1 d.wallets
        ≡ some (
            moved
              (negate (pos 10_000_000_000))
              (negate (pos 10_000_000_000))
              (wallet 1 (pos 50_000_000_000) (pos 10_000_000_000))))
    × (find 2 d.wallets
        ≡ some (moved (pos 10_000_000_000 -ℤ pos fee) (pos 0) (wallet 2 (pos 0) (pos 0))))
    × (find 3 d.wallets ≡ some (moved (pos fee) (pos 0) (wallet 3 (pos 0) (pos 0))))
unfolding find find_first active_wallet status_eq remaining_amount compute_fee exact_fee round_div
    default_rule default_percent fee_defaults
release_returns_example =
    release_returns env 1 1 2 3 deal deal (wallet 1 (pos 50_000_000_000) (pos 10_000_000_000))
      (wallet 2 (pos 0) (pos 0)) (wallet 3 (pos 0) (pos 0)) (3, user (codes "farm") true) none
      market refl refl refl refl refl refl refl refl refl refl refl refl refl refl refl refl refl
      refl
