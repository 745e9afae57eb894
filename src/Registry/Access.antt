-- ===== src/Registry/Access.antt =====
-- The accessors of the registry.
use tarwyn.Base.{ℕ, Option, Text, nat_eq, text_eq, option_map}
use tarwyn.Base.Assoc.{lookup}
use tarwyn.Registry.State.{NtRegistry}

unfoldable pub topic_id : Text → NtRegistry → Option ℕ
topic_id name r = lookup name r.by_name

unfoldable pub topic_name : ℕ → NtRegistry → Option Text
topic_name id r = option_map (λ t. t.name) (lookup id r.topics)

unfoldable pub client_name : ℕ → NtRegistry → Option Text
client_name client r = lookup client r.client_name_by_id
