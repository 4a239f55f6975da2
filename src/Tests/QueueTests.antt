-- ===== src/Tests/QueueTests.antt =====
-- message_queue_writer.cpp
use chucho.Base.{
  ℕ, zero, suc, ◌≡◌, ◌<◌, refl, true, false, List, [], ◌∷◌, ◌++◌, none, some, Text, codes, arith,
}
use chucho.QueueWriter.{Line, new_queue_writer, write_messages, serialize_message}
use chucho.QueueWriter.Batches.{flat, write_messages_batches, write_messages_failed}

abbrev line : Line
line = record {
  eol = codes "\n";
  compressor = some (λ bytes. codes "gz" ++ bytes);
  delivers = λ k. true;
}

abbrev batches : List (List Text)
batches = (codes "a" ∷ (codes "b" ∷ [])) ∷ ((codes "c" ∷ (codes "d" ∷ [])) ∷ [])

write_messages_batches_example :
    write_messages line (flat batches ++ (codes "e" ∷ [])) (new_queue_writer 2) ≡ record {
      events = codes "e";
      coalesce_max = 2;
      number_coalesced = 1;
      calls = 2;
      sent = codes "gza\nb" ∷ (codes "gzc\nd" ∷ []);
    }
unfolding serialize_message
write_messages_batches_example =
    write_messages_batches line 2 batches (codes "e" ∷ []) (λ k. refl) (omega arith) (omega arith)
      (refl, (refl, record {})) (omega arith)

abbrev down_once : Line
down_once = record {
  eol = codes "\n";
  compressor = none;
  delivers = λ k. elim k [ zero ↦ true | suc m ↦ elim m [ zero ↦ false | suc j ↦ true ] ];
}

first_sent : (k : ℕ) → k < 1 → down_once.delivers k ≡ true
first_sent zero low = refl
first_sent (suc k) low = absurd (omega arith)

write_messages_failed_example :
    write_messages down_once
      (flat ((codes "x" ∷ (codes "y" ∷ [])) ∷ [])
        ++ ((codes "a" ∷ (codes "b" ∷ [])) ++ (codes "c" ∷ (codes "d" ∷ (codes "e" ∷ [])))))
      (new_queue_writer 2)
    ≡ record {
      events = codes "c\nd\ne";
      coalesce_max = 2;
      number_coalesced = 5;
      calls = 2;
      sent = codes "x\ny" ∷ [];
    }
write_messages_failed_example =
    write_messages_failed down_once 2 ((codes "x" ∷ (codes "y" ∷ [])) ∷ [])
      (codes "a" ∷ (codes "b" ∷ [])) (codes "c" ∷ (codes "d" ∷ (codes "e" ∷ []))) first_sent refl
      (omega arith) (refl, record {}) refl (omega arith)
