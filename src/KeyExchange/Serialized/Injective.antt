-- ===== src/KeyExchange/Serialized/Injective.antt =====
-- key_exchange/mod.rs: identifiers and contexts carry their length in front, so that what follows one
-- cannot be taken for a part of it.
use opaque_vx.Prelude.{
  ◌^◌, ◌<◌, Option, none, some, ◌++◌, Bytes, length, ◌≡◌, refl, sym, ◌∙◌, arith, append_cancel,
  flatten, append-nil, append_assoc,
}
use opaque_vx.Prelude.Results.{ok, bind_ok}
use opaque_vx.Serialization.{i2osp}
use opaque_vx.Serialization.Integers.RoundTrip.{os2ip-i2osp}
use opaque_vx.Oprf.{OprfCs}
use opaque_vx.KeyExchange.Serialized.{
  owned, borrowed, identifier_slices, Identifiers, SerializedIdentifier, SerializedIdentifiers,
  from_identifier, from_identifiers, identifier_bytes,
}

module _ {V W : Type 0} where
  -- Two strings with their lengths in front, and anything behind: if the whole is the same, so are the
  -- parts.
  pub prefixed_injective :
      (l l' xs xs' ys ys' : Bytes)
      → length xs < 2 ^ 64
      → length xs' < 2 ^ 64
      → i2osp {V = V} {W = W} 2 (length xs) ≡ ok l
      → i2osp {V = V} {W = W} 2 (length xs') ≡ ok l'
      → l ++ (xs ++ ys) ≡ l' ++ (xs' ++ ys')
      → (xs ≡ xs') × (ys ≡ ys')
  prefixed_injective l l' xs xs' ys ys' small small' e e' same =
      let (two, read) = os2ip-i2osp {V = V} {W = W} 2 (length xs) l small (omega arith) e in
      let (two', read') = os2ip-i2osp {V = V} {W = W} 2 (length xs') l' small' (omega arith) e' in
      let (same_prefix, same_rest) = append_cancel l l' _ _ (two ∙ sym two') same in
      let same_length : length xs ≡ length xs' = cc in
      append_cancel xs xs' ys ys' same_length same_rest

-- The identifier that is used: the one that is given, or the public key.
abbrev pub identity_of : Option Bytes → Bytes → Bytes
identity_of none s_pk = s_pk
identity_of (some id) s_pk = id

module _ (o : OprfCs) where
  pub from_identifier-eq-ok :
      (id : Option Bytes) (s_pk : Bytes) (s : SerializedIdentifier)
      → from_identifier o id s_pk ≡ ok s
      → (identifier_bytes s.identifier ≡ identity_of id s_pk)
        × (i2osp {V = o.Error} {W = o.InternalError} 2 (length (identity_of id s_pk)) ≡ ok s.length)
  unfolding from_identifier
  from_identifier-eq-ok none s_pk s h = bind_ok _ _ h λ l e h'.
      let same : record { length = l; identifier = owned s_pk } ≡ s = cc in rw (← same) (refl, e)
  from_identifier-eq-ok (some id) s_pk s h = bind_ok _ _ h λ l e h'.
      let same : record { length = l; identifier = borrowed id } ≡ s = cc in rw (← same) (refl, e)

  -- The slices of an identifier: its length, then itself.
  pub Framed : SerializedIdentifier → Bytes → Type 0
  Framed s id =
      (identifier_bytes s.identifier ≡ id)
      × (i2osp {V = o.Error} {W = o.InternalError} 2 (length id) ≡ ok s.length)
      × (length id < 2 ^ 64)

  pub from_identifiers-Framed :
      (ids : Identifiers) (client_s_pk server_s_pk : Bytes) (i : SerializedIdentifiers)
      → length (identity_of ids.client client_s_pk) < 2 ^ 64
      → length (identity_of ids.server server_s_pk) < 2 ^ 64
      → from_identifiers o ids client_s_pk server_s_pk ≡ ok i
      → Framed i.client (identity_of ids.client client_s_pk)
        × Framed i.server (identity_of ids.server server_s_pk)
  unfolding Framed from_identifiers
  from_identifiers-Framed ids client_s_pk server_s_pk i small small' h =
      bind_ok _ _ h λ client e h'. bind_ok _ _ h' λ server e' h''.
        let (same, framed) = from_identifier-eq-ok ids.client client_s_pk client e in
        let (same', framed') = from_identifier-eq-ok ids.server server_s_pk server e' in
        let whole : record { client = client; server = server } ≡ i = cc in
        rw (← whole) ((same, framed, small), (same', framed', small'))

  flatten-identifier_slices :
      (s : SerializedIdentifier) (id rest : Bytes)
      → identifier_bytes s.identifier ≡ id
      → flatten (identifier_slices s) ++ rest ≡ s.length ++ (id ++ rest)
  unfolding identifier_slices
  flatten-identifier_slices s id rest e = rw e (simp (append-nil, append_assoc))

  pub Framed-injective :
      (s s' : SerializedIdentifier) (id id' rest rest' : Bytes)
      → Framed s id
      → Framed s' id'
      → flatten (identifier_slices s) ++ rest ≡ flatten (identifier_slices s') ++ rest'
      → (id ≡ id') × (rest ≡ rest')
  unfolding Framed
  Framed-injective s s' id id' rest rest' (e, framed, small) (e', framed', small') same =
      prefixed_injective {V = o.Error} {W = o.InternalError} s.length s'.length id id' rest rest'
        small small' framed framed'
        (sym (flatten-identifier_slices s id rest e)
          ∙ same
          ∙ flatten-identifier_slices s' id' rest' e')
