-- ===== src/Tests/Queue.antt =====
-- The response queue of pkg/engine/handler.go.
use pluster.Prelude.{◌≡◌, refl, List, [], ◌∷◌, Option, Bytes, false, none, some, codes}
use pluster.Engine.Responses.{
  FanIn, Slot, Client, ready_prefix, alloc_response_slot, accumulate_response_slot,
  flush_write_accum,
}
use pluster.Engine.Responses.History.{outgoing, history, IsOrdered}
use pluster.Engine.Responses.Steps.{new_client}
use pluster.Engine.Responses.Gather.{gather, gather-history}

abbrev plain : Slot
plain = record { ready = false; bytes = []; fan_in = none }

-- The second request waits for two replies.
abbrev both : FanIn
both = record {
  total = 2;
  received = 1;
  sub_data = codes "x" ∷ [] ∷ [];
  merge_func = λ parts. elim parts [ [] ↦ [] | p ∷ ps ↦ p ];
}

abbrev two_waiting : Client
two_waiting = record {
  queue = plain ∷ record { ready = false; bytes = []; fan_in = some both } ∷ [];
  base = 1;
  written = codes "z" ∷ [];
  iov = [];
}

two_waiting-IsOrdered : IsOrdered two_waiting
unfolding ready_prefix
two_waiting-IsOrdered = record { counted = refl; waiting = refl }

-- Two requests; the second is answered first.
abbrev after_second : Client
after_second =
    accumulate_response_slot (alloc_response_slot (alloc_response_slot new_client).0).0 1
      (codes "b")

abbrev out_of_order : Client
out_of_order = flush_write_accum (accumulate_response_slot after_second 0 (codes "a"))

held_back : outgoing after_second ≡ []
unfolding accumulate_response_slot alloc_response_slot ready_prefix
held_back = refl

in_order : out_of_order.written ≡ codes "a" ∷ codes "b" ∷ []
unfolding accumulate_response_slot alloc_response_slot ready_prefix flush_write_accum
in_order = refl

-- What has come for them.
abbrev both_answered : List (Option Bytes)
both_answered = some (codes "a") ∷ some (codes "b") ∷ []

-- Two parts are awaited behind a request that waits; the second part comes first.
abbrev in_two_parts : Client
in_two_parts = record two_waiting {
  queue =
      plain
      ∷ record { ready = false; bytes = []; fan_in = some (record both { received = 0 }) }
      ∷ [];
}

in_two_parts-IsOrdered : IsOrdered in_two_parts
unfolding ready_prefix
in_two_parts-IsOrdered = record { counted = refl; waiting = refl }

gather-history_example :
    history (gather 2 ((1, codes "y") ∷ (0, codes "x") ∷ []) in_two_parts)
    ≡ some (codes "z") ∷ none ∷ some (codes "x") ∷ []
gather-history_example =
    gather-history in_two_parts 2 (record both { received = 0 }) (1, codes "y")
      ((0, codes "x") ∷ []) in_two_parts-IsOrdered refl refl refl
