-- ===== src/Progressive/Tests.antt =====
-- The progressive mint of packages/native/src/progressive-mint.ts at concrete inputs.
use qlyphs_wallet.Prelude.{ℕ, ◌≡◌, refl, arith, ok, err, some, take, List, [], ◌∷◌, ◌++◌, replicate}
use qlyphs_wallet.Wire.Bytes.{low_bytes, spelled, compact, uint, width_from, id_bytes}
use qlyphs_wallet.Progressive.Ticket.{MintTicket, settlement_call, read_settlement}
use qlyphs_wallet.Progressive.Settlement.{read_settlement-settlement_call}
use qlyphs_wallet.Progressive.Sha512.{sha512}
use qlyphs_wallet.Refusal.{mint_sold_out}
use qlyphs_wallet.Progressive.Quote.{v2, require_progressive_mint, progressive_lot_fee, fees_of}
use qlyphs_wallet.Progressive.Schedule.{sale_total, buy_lots, total_fee}

fee_of_last_lot : progressive_lot_fee 1000 v2 ≡ ok 440_000_000_000
unfolding progressive_lot_fee fees_of
fee_of_last_lot = refl

sale_total_example :
    (buy_lots 1000 21_000_000 0 v2 ≡ ok (record { minted = 21_000_000; fees = total_fee v2 }))
    × ((amount : ℕ) → require_progressive_mint 21_000_000 21_000_000 amount v2 ≡ err mint_sold_out)
sale_total_example = sale_total 21_000_000 v2 (omega arith) (omega arith) refl

-- The first bytes of the digest of "abc".
sha512_of_abc :
    take 8 (sha512 (97 ∷ 98 ∷ 99 ∷ [])) ≡ 221 ∷ 175 ∷ 53 ∷ 161 ∷ 147 ∷ 97 ∷ 122 ∷ 186 ∷ []
unfolding sha512 low_bytes spelled
sha512_of_abc = refl

abbrev a_ticket : MintTicket
a_ticket = record { first = 5; second = 6; nonce = 2 }

abbrev settlement_bytes : List ℕ
settlement_bytes =
    9
    ∷ 2
    ∷ 8
    ∷ 19
    ∷ 0
    ∷ 8
    ∷ (replicate 31 0
        ++ (5
            ∷ (replicate 31 0
                ++ (6
                    ∷ 2
                    ∷ 0
                    ∷ 0
                    ∷ 0
                    ∷ 2
                    ∷ (replicate 7 0 ++ (2 ∷ 3 ∷ 0 ∷ (replicate 31 0 ++ (9 ∷ 40 ∷ []))))))))

settlement_test : settlement_call a_ticket 9 10 ≡ ok settlement_bytes
unfolding settlement_call compact uint low_bytes width_from id_bytes
settlement_test = refl

read_settlement-settlement_call_example :
    read_settlement settlement_bytes ≡ some (record { ticket = a_ticket; to = 9; amount = 10 })
read_settlement-settlement_call_example =
    read_settlement-settlement_call a_ticket 9 10 settlement_test
