-- ===== src/Trust/Tests.antt =====
-- Requests about two agents, with numbers in thousandths for floats.
use open_agent_net.Prelude.{
  ℕ, ◌≡◌, refl, true, none, some, List, [], ◌∷◌, ◌⊎◌, arith, str_eq, if◌then◌else◌,
}
use open_agent_net.Identifiers.{Uuid}
use open_agent_net.Db.{lookup}
use open_agent_net.Trust.Numbers.{Rounds}
use open_agent_net.Trust.State.{TrustRecord, Dispute, DisputeStatus, TrustDb, Verdict}
use open_agent_net.Trust.Bounds.{Sound}
use open_agent_net.Trust.Service.{new_record}
use open_agent_net.Trust.Samples.{thousandths, components}
use open_agent_net.Trust.Requests.{
  Request, outcome, endorsing, flagging, resolving, step, run, Judges, dispute_final,
  records_stay-Sound, penalty_only_valid,
}

rounds : Rounds thousandths
rounds = record {
  zero_zero = refl;
  one_zero = refl;
  one_one = refl;
  half_zero = refl;
  one_half = refl;
  stays = λ x w. w;
}

abbrev uuid : Uuid
uuid = record {
  parse = λ s.
      if str_eq s "a1"
      then some 1
      else if str_eq s "a2"
      then some 2
      else if str_eq s "d5"
      then some 5
      else none;
  uuid5 = λ s. 0;
}

abbrev withdrawn5 : Dispute
withdrawn5 = record {
  reported_agent_id = 2;
  reporter_agent_id = 1;
  task_id = none;
  reason = "late";
  status = DisputeStatus.withdrawn;
  resolution_notes = none;
  resolved_by = none;
  reviewed_at = some 3;
  verified = none;
  created_at = 0;
}

abbrev record2 : TrustRecord ℕ
record2 = new_record thousandths components 0

abbrev db5 : TrustDb ℕ
db5 = record {
  records = (2, record2) ∷ [];
  endorsements = [];
  disputes = (5, withdrawn5) ∷ [];
  anomalies = [];
  tasks = [];
  agents = [];
}

abbrev script : List Request
script =
    flagging 4 6 "a2" "a1" "slow" none
    ∷ resolving 5 "d5" Verdict.valid none none
    ∷ endorsing 6 8 "a1" "a2" "sum" none
    ∷ outcome 9 3 true none
    ∷ []

dispute_final_example :
    lookup 5 (run thousandths components uuid script db5).disputes ≡ some withdrawn5
unfolding lookup
dispute_final_example = dispute_final thousandths components uuid 5 withdrawn5 refl script db5 refl

db5-Sound : Sound thousandths components rounds db5.records
unfolding lookup
db5-Sound k r e =
    let is : r ≡ record2 = ground arith in
    rw is (record { counts = omega arith; score = record { above = refl; below = refl } })

records_stay-Sound_example :
    Sound thousandths components rounds (run thousandths components uuid script db5).records
records_stay-Sound_example =
    records_stay-Sound thousandths components uuid rounds script db5 db5-Sound

penalty_only_valid_example :
    (r' : TrustRecord ℕ) × (lookup 2
        (step thousandths components uuid (flagging 4 6 "a2" "a1" "slow" none) db5).records
      ≡ some r')
    × ((r'.dispute_penalty ≡ record2.dispute_penalty)
        ⊎ Judges thousandths components uuid (flagging 4 6 "a2" "a1" "slow" none) db5 2)
unfolding lookup
penalty_only_valid_example =
    penalty_only_valid thousandths components uuid rounds (flagging 4 6 "a2" "a1" "slow" none) db5 2
      record2 refl
