-- ===== src/Stream/Tests.antt =====
-- Merging two groups that share a message, for internal/ai/extraction/consumer.go.
use signa.Prelude.{String, ◌≡◌, refl, List, [], ◌∷◌}
use signa.Prelude.Text.{contains}
use signa.Stream.{StreamMessage}
use signa.Stream.Merge.{merge_messages, merge_from, ids}

abbrev message : String → StreamMessage
message id = record { id = id; values = [] }

abbrev groups : List StreamMessage
groups = message "1-0" ∷ message "2-0" ∷ message "1-0" ∷ []

merged : ids (merge_messages groups) ≡ "1-0" ∷ "2-0" ∷ []
unfolding merge_messages merge_from contains
merged = refl
