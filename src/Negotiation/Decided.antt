-- ===== src/Negotiation/Decided.antt =====
-- What a decision that `decide` accepted does to the row and to the contracts.
use open_agent_net.Prelude.{ℕ, ◌+◌, ◌≤◌, ◌≡◌, refl, false, Option, none, some, arith}
use open_agent_net.Db.{ok, lookup, add_row, any_row}
use open_agent_net.Negotiation.State.{
  Status, accepted, countered, declined, Response, Negotiation, NegotiationDb, max_rounds,
}
use open_agent_net.Negotiation.Service.{
  Draws, add_contract, decide, contract_of, counter_row, is_contract_of, token_taken,
}

-- How a decision that was accepted by `decide` changes the row and the contracts.
pub data Decided (now : ℕ) (draws : Draws) (id : ℕ) (n : Negotiation) (response : Response)
    (d : Option Status) (db : NegotiationDb) (m : Negotiation) (mid : NegotiationDb) : Type 0 where
  agree :
      d ≡ some accepted
      → m ≡ record n { status = accepted; session_token = draws.token }
      → lookup draws.id db.contracts ≡ none
      → any_row (is_contract_of id) db.contracts ≡ false
      → token_taken draws.token id db.negotiations ≡ false
      → mid ≡ record db {
        contracts = add_row draws.id (contract_of draws.token id n response) db.contracts;
      }
      → Decided now draws id n response d db m mid
  counter :
      d ≡ some countered
      → m ≡ counter_row now n
      → n.round_count + 1 ≤ max_rounds
      → mid ≡ db
      → Decided now draws id n response d db m mid
  decline :
      d ≡ some declined
      → m ≡ record n { status = declined }
      → mid ≡ db
      → Decided now draws id n response d db m mid

pub decide-Decided :
    (now : ℕ) (draws : Draws) (id : ℕ) (n : Negotiation) (response : Response) (d : Option Status)
    (db : NegotiationDb) (x : Negotiation × Option ℕ) (mid : NegotiationDb)
    → decide now draws id n response d db ≡ ok (x, mid)
    → Decided now draws id n response d db x.0 mid
unfolding decide add_contract
decide-Decided now draws id n response (some accepted) db x mid h =
    agree refl (ground arith) (ground arith) (ground arith) (ground arith) (ground arith)
decide-Decided now draws id n response (some countered) db x mid h =
    counter refl (ground arith) (ground arith) (ground arith)
decide-Decided now draws id n response (some declined) db x mid h =
    decline refl (ground arith) (ground arith)
decide-Decided now draws id n response d db x mid h = cc
