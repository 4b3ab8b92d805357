-- ===== src/Store/View.antt =====
-- What a store promises of internal/state/store.go, whatever its maps look like: a function from
-- names to instances and one from names and common names to clients.
use openconnectd.Base.{
  ◌≡◌, refl, ap, Option, none, some, Text, arith, same, same_iff, if◌then◌else◌, is_some, [],
  Bool-cases, Option-cases, inl, inr,
}
use openconnectd.Base.Dict.{Dict, lookup, insert, erase, lookup-insert, lookup-erase, lookup-nil}
use openconnectd.Api.{Instance, ClientPeer}
use openconnectd.Exec.{Exec}
use openconnectd.Host.{Env}
use openconnectd.Store.{
  Records, Codec, Store, clients_of, or_empty, commit, with_clients, remove_client, put_instance,
  delete_instance, put_client, delete_client, get_instance, get_client,
}

pub record View : Type 0 where
  pub instance_at : Text → Option Instance
  pub client_at : Text → Text → Option ClientPeer

unfoldable pub view : Records → View
view r = record { instance_at = get_instance r; client_at = get_client r }

-- The mutations of the store.
pub data Mutation : Type 0 where
  puts_instance : Instance → Mutation
  deletes_instance : Text → Mutation
  puts_client : Text → ClientPeer → Mutation
  deletes_client : Text → Text → Mutation

unfoldable pub mutate : Env → Codec → Mutation → Exec Store (Unit {0})
mutate env codec (puts_instance in') = put_instance env codec in'
mutate env codec (deletes_instance name) = delete_instance env codec name
mutate env codec (puts_client name c) = put_client env codec name c
mutate env codec (deletes_client name cn) = delete_client env codec name cn

-- What each mutation means for the view.
unfoldable pub meaning : Mutation → View → View
meaning (puts_instance in') v = record v {
  instance_at = λ n. if same in'.name n then some in' else v.instance_at n;
}
meaning (deletes_instance name) v = record {
  instance_at = λ n. if same name n then none else v.instance_at n;
  client_at = λ n cn. if same name n then none else v.client_at n cn;
}
meaning (puts_client name c) v =
    if is_some (v.instance_at name)
    then record v {
      client_at = λ n cn.
          if same name n
          then (if same c.common_name cn then some c else v.client_at n cn)
          else v.client_at n cn;
    }
    else v
meaning (deletes_client name cn) v = record v {
  client_at =
      λ n k. if same name n then (if same cn k then none else v.client_at n k) else v.client_at n k;
}

View_eq :
    {v w : View}
    → ((n : Text) → v.instance_at n ≡ w.instance_at n)
    → ((n k : Text) → v.client_at n k ≡ w.client_at n k)
    → v ≡ w
View_eq p q = λ i. record { instance_at = λ n. p n i; client_at = λ n k. q n k i }

module _ (r : Records) where
  -- Clients of an instance once the map of another, or its own, is replaced.
  clients_of-insert :
      (name n : Text) (m : Dict ClientPeer)
      → or_empty (lookup n (insert name m r.clients)) ≡ (if same name n then m else clients_of r n)
  clients_of-insert name n m = ground (arith, lookup-insert name n m r.clients)

  clients_of-erase :
      (name n : Text)
      → or_empty (lookup n (erase name r.clients)) ≡ (if same name n then [] else clients_of r n)
  clients_of-erase name n = ground (arith, lookup-erase name n r.clients)

  clients_of-with_clients :
      (name n : Text) → or_empty (lookup n (with_clients name r.clients)) ≡ clients_of r n
  unfolding with_clients
  clients_of-with_clients name n = elim (Option-cases (lookup name r.clients)) [
    | inl none' ↦ ground (arith, lookup-insert name n [] r.clients, same_iff name n)
    | inr (m, found) ↦ rw found refl
  ]

  clients_of-remove_client :
      (name cn n k : Text)
      → lookup k (or_empty (lookup n (remove_client name cn r.clients (lookup name r.clients))))
        ≡ (if same name n then (if same cn k then none else get_client r n k) else get_client r n k)
  unfolding remove_client get_client
  clients_of-remove_client name cn n k = elim (Option-cases (lookup name r.clients)) [
    | inl none' ↦ ground (arith, lookup-nil {V = ClientPeer} k, same_iff name n)
    | inr (m, found) ↦
        ground
          (arith, lookup-insert name n (erase cn m) r.clients, same_iff name n, lookup-erase cn k m)
  ]

  client_at-delete_instance :
      (name n k : Text)
      → lookup k (or_empty (lookup n (erase name r.clients)))
        ≡ (if same name n then none else get_client r n k)
  unfolding get_client
  client_at-delete_instance name n k =
      ground (arith, clients_of-erase name n, lookup-nil {V = ClientPeer} k)

  client_at-put_client :
      (name : Text) (c : ClientPeer) (n k : Text)
      → lookup k
          (or_empty (lookup n (insert name (insert c.common_name c (clients_of r name)) r.clients)))
        ≡ (if same name n
            then (if same c.common_name k then some c else get_client r n k)
            else get_client r n k)
  unfolding get_client
  client_at-put_client name c n k =
      let m = insert c.common_name c (clients_of r name) in
      ground (
        arith,
        clients_of-insert name n m,
        lookup-insert c.common_name k c (clients_of r name),
        same_iff name n,
      )

module _ (env : Env) (codec : Codec) where
  -- After each mutation the store shows what the mutation means, also when the file could not be
  -- written and the caller is told of an error.
  pub view-mutate :
      (m : Mutation) (s : Store)
      → view (mutate env codec m s).1.records ≡ meaning m (view s.records)
  unfolding mutate meaning view commit put_instance delete_instance put_client delete_client
      get_instance get_client
  view-mutate (puts_instance in') s =
      View_eq (λ n. lookup-insert in'.name n in' s.records.instances)
        (λ n k. ap (lookup k) (clients_of-with_clients s.records in'.name n))
  view-mutate (deletes_instance name) s =
      View_eq (λ n. lookup-erase name n s.records.instances)
        (λ n k. client_at-delete_instance s.records name n k)
  view-mutate (puts_client name c) s =
      elim (Bool-cases (is_some (lookup name s.records.instances))) [
        | inl known ↦
            rw (known, put_client, get_instance)
              (View_eq (λ n. refl) (λ n k. client_at-put_client s.records name c n k))
        | inr unknown ↦ rw (unknown, put_client, get_instance)
      ]
  view-mutate (deletes_client name cn) s =
      View_eq (λ n. refl) (λ n k. clients_of-remove_client s.records name cn n k)
