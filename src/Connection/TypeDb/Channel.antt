-- ===== src/Connection/TypeDb/Channel.antt =====
-- The channel of a stub of nodejs/connection/TypeDBStubImpl.ts. gRPC's credentials and the reading of
-- a file are parameters.
use typedb_client_java.Prelude.{
  String, Option, none, some, Bool, true, ◌≡◌, refl, subst, inl, inr, arith, Bool-cases,
}
use typedb_client_java.Effect.{Result, ok, err}
use typedb_client_java.Rpc.Stub.{Metadata, call_credentials}
use typedb_client_java.Rpc.Stub
use typedb_client_java.Connection.TypeDb.{Credential, new_credential}

-- `ChannelCredentials` and `CallCredentials` of @grpc/grpc-js.
pub record Grpc (File Channel Calls : Type 0) : Type 0 where
  pub create_insecure : Channel
  pub create_ssl : Option File → Channel
  -- The generator of the metadata of a call, by the token at that time.
  pub create_from_metadata_generator : (Option String → Option Metadata) → Calls
  pub combine_channel_credentials : Channel → Calls → Channel

-- The part of a credential that calls carry.
unfoldable pub login : Credential → Stub.Credential
login c = record { username = c.username; password = c.password }

abbrev accepted : String → String → Option String → Credential
accepted name secret path = record { username = name; password = secret; tls_root_ca_path = path }

module _ {File Channel Calls : Type 0} (grpc : Grpc File Channel Calls)
    (read_file_sync : String → Result File) where
  -- `createCallCredentials`
  unfoldable pub create_call_credentials : Credential → Calls
  unfolding login call_credentials
  create_call_credentials c =
      grpc.create_from_metadata_generator (call_credentials (some (login c)))

  secured : Credential → Option File → Channel
  unfolding create_call_credentials
  secured c file =
      grpc.combine_channel_credentials (grpc.create_ssl file) (create_call_credentials c)

  with_file : Credential → Result File → Result Channel
  unfolding secured
  with_file c (ok file) = ok (secured c (some file))
  with_file c (err e) = err e

  unfoldable pub create_channel_credentials : Credential → Result Channel
  unfolding with_file secured
  create_channel_credentials c = elim c.tls_root_ca_path [
    | none ↦ ok (secured c none)
    | some path ↦ with_file c (read_file_sync path)
  ]

  -- The constructor, up to the stub of gRPC on this channel; the token is not set.
  unfoldable pub new_channel : Option Credential → Result Channel
  unfolding create_channel_credentials
  new_channel none = ok grpc.create_insecure
  new_channel (some c) = create_channel_credentials c

  with_file-ok :
      (c : Credential) (r : Result File)
      → (file : File) × (r ≡ ok file)
      → (channel : Channel) × (with_file c r ≡ ok channel)
  unfolding with_file
  with_file-ok c (ok f) h = (secured c (some f), refl)
  with_file-ok c (err e) (file, h) = cc

  -- Where a file that is there can be read, a stub can be made for each credential that its
  -- constructor has accepted.
  pub new_channel-new_credential :
      (exists : String → Bool) (username password : String) (path : Option String) (c : Credential)
      → ((p : String) → exists p ≡ true → (file : File) × (read_file_sync p ≡ ok file))
      → new_credential exists username password path ≡ ok c
      → (channel : Channel) × (new_channel (some c) ≡ ok channel)
  unfolding new_channel create_channel_credentials new_credential
  new_channel-new_credential exists username password none c readable h =
      let made : accepted username password none ≡ c = cc in
      subst (λ d. (channel : Channel) × (new_channel (some d) ≡ ok channel)) made
        (secured (accepted username password none) none, refl)
  new_channel-new_credential exists username password (some p) c readable h =
      elim (Bool-cases (exists p)) [
        | inl there ↦
            let made : accepted username password (some p) ≡ c = ground (arith, there, h) in
            subst (λ d. (channel : Channel) × (new_channel (some d) ≡ ok channel)) made
              (with_file-ok (accepted username password (some p)) (read_file_sync p)
                (readable p there))
        | inr missing ↦ ground (arith, missing, h)
      ]
