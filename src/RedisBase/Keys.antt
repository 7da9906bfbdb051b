-- ===== src/RedisBase/Keys.antt =====
-- The keys that a storage uses.
use text.Mathlib.TextLemmas.{append_cancel_left}
use govnilo.Prelude.{
  ℤ, pos, ◌≡◌, refl, sym, ap, ◌∙◌, ◌≢◌, ◌↔◌, string_eq, int_eq, true, String, ok, arith,
}
use govnilo.RedisBase.{Storage, StorageInput, made_storage, new_storage, key_for, or_default}

-- The key of the sorted set is that of "exp", and no setting is 0.
pub record IsReady (st : Storage) : Type 0 where
  pub exp_key : st.exp_z_set_key ≡ key_for st "exp"
  pub lives : st.ttl ≢ pos 0
  pub paced : st.cleanup_interval ≢ pos 0
  pub batched : st.cleanup_batch_size ≢ pos 0

or_default-nonzero : (d x : ℤ) → d ≢ pos 0 → or_default d x ≢ pos 0
or_default-nonzero d x h = ground (arith, int_eq.beq_iff x (pos 0))

made_storage-IsReady : (input : StorageInput) → IsReady (made_storage input)
unfolding made_storage
made_storage-IsReady input = record {
  exp_key = refl;
  lives = or_default-nonzero (pos 3_600_000_000_000) input.ttl (ground arith);
  paced = or_default-nonzero (pos 1_000_000_000) input.cleanup_interval (ground arith);
  batched = or_default-nonzero (pos 1_000) input.cleanup_batch_size (ground arith);
}

new_storage_made :
    {E : Type 0} (input : StorageInput) (st : Storage)
    → new_storage {E = E} input ≡ ok st
    → (input.has_client ≡ true)
      × (input.service_name ≢ "")
      × (input.entity_name_plural ≢ "")
      × (made_storage input ≡ st)
unfolding new_storage
new_storage_made input st made =
    ground (
      arith,
      string_eq.beq_iff input.service_name "",
      string_eq.beq_iff input.entity_name_plural "",
    )

-- `NewStorage` takes an input only with a client and both names, and the storage that it makes has
-- the key of "exp" for its sorted set and no setting of 0.
pub new_storage_outcome :
    {E : Type 0} (input : StorageInput) (st : Storage)
    → new_storage {E = E} input ≡ ok st
    → (input.has_client ≡ true)
      × (input.service_name ≢ "")
      × (input.entity_name_plural ≢ "")
      × IsReady st
new_storage_outcome input st made =
    let (client, service, plural, it) = new_storage_made input st made in
    (client, service, plural, rw (← it) (made_storage-IsReady input))

-- Two ids have two keys, and only the id "exp" has the key of the sorted set.
pub key_for_apart :
    {st : Storage} (a b : String)
    → IsReady st
    → ((key_for st a ≡ key_for st b) ↔ (a ≡ b)) × ((key_for st a ≡ st.exp_z_set_key) ↔ (a ≡ "exp"))
key_for_apart {st} a b ready = (
  (append_cancel_left st.key_prefix a b, λ e. ap (key_for st) e),
  (
    λ e. append_cancel_left st.key_prefix a "exp" (e ∙ ready.exp_key),
    λ e. ap (key_for st) e ∙ sym ready.exp_key,
  ),
)
