-- ===== src/Mqtt/App.antt =====
-- mqtt-endpoint/src/service/app.rs and mqtt-common/src/mqtt.rs: how a connection gets its session,
-- and how its messages reach it. The services are an interface; ntex, which reads the messages and
-- writes the answers, is not modelled.
pub mod Connecting
mod Tests
use drogue_cloud.Base.{
  ℕ, String, Bool, true, false, not, List, [], ◌∷◌, Option, none, some, Result, ok, err, ◌>>=◌,
  if◌then◌else◌,
}
use drogue_cloud.Mqtt.Errors.{
  PublishError, PublishAckReason, publish_ack, ServerError, internal, configuration, state_error,
  protocol, unsupported, authentication_failed, publish_error,
}
use drogue_cloud.Mqtt.Dialect.{MqttDialect}
use drogue_cloud.Mqtt.Authenticator.{
  VerifiedIdentity, AuthOutcome, auth_pass, auth_fail, Service, authenticate_mqtt,
}

pub record Will : Type 0 where
  pub topic : String
  pub message : List ℕ
  pub content_type : Option String

-- The CONNECT packet, with what the transport knows of the client. `clean` is the clean session of
-- v3 and the clean start of v5.
pub record Packet (Certs : Type 0) : Type 0 where
  pub clean : Bool
  pub username : Option String
  pub password : Option (List ℕ)
  pub client_id : String
  pub last_will : Option Will
  pub certs : Option Certs
  pub psk_identity : Option (List ℕ)

pub data Version : Type 0 where
  v3 v5 : Version

pub record LastWillTestament : Type 0 where
  pub channel : String
  pub payload : List ℕ
  pub lwt_type : Option String

-- A will of v3 has no content type.
unfoldable pub make_lwt : {Certs : Type 0} → Version → Packet Certs → Option LastWillTestament
make_lwt version packet = elim packet.last_will [
  | none ↦ none
  | some will ↦ some (record {
    channel = will.topic;
    payload = will.message;
    lwt_type = elim version [ v3 ↦ none | v5 ↦ will.content_type ];
  })
]

pub data PskOutcome (A T : Type 0) : Type 0 where
  psk_found : A → T → PskOutcome A T
  psk_not_found : PskOutcome A T

pub data StateOutcome : Type 0 where
  state_created state_occupied state_failed : StateOutcome

-- The authenticator, the requests for keys, the state controller, and the reading of texts and of sections of
-- applications and devices. `parse_identity` is `Identity::parse`.
pub record Services (World A T Certs : Type 0) : Type 1 where
  pub from_utf8 : List ℕ → Option String
  pub parse_identity : String → Option (String × String)
  pub request_psk : String → String → World → Result String (PskOutcome A T) × World
  pub authenticator : Service World A T Certs
  pub device_dialect : T → Option (Result String MqttDialect)
  pub application_dialect : A → Option (Result String MqttDialect)
  pub default_dialect : MqttDialect
  pub create_state : A → T → Option LastWillTestament → World → StateOutcome × World

pub data EndpointError : Type 0 where
  authentication_error : EndpointError
  service_error : String → EndpointError

-- What is made of a session.
pub record Created (A T : Type 0) : Type 0 where
  pub application : A
  pub device : T
  pub dialect : MqttDialect

module _ {World A T Certs : Type 0} (services : Services World A T Certs) where
  unfoldable pub lookup_identity : String × String → World → Option (VerifiedIdentity A T) × World
  lookup_identity identity w =
      let r = services.request_psk identity.0 identity.1 w in
      elim r.0 [
        | err e ↦ (none, r.1)
        | ok outcome ↦ elim outcome [
          | psk_found app device ↦ (some (record { application = app; device = device }), r.1)
          | psk_not_found ↦ (none, r.1)
        ]
      ]

  -- The identity of a connection that has a pre-shared key.
  unfoldable pub verified_identity :
      Bool → Packet Certs → World → Option (VerifiedIdentity A T) × World
  unfolding lookup_identity
  verified_identity disable_psk packet w =
      if disable_psk then (none, w) else (elim packet.psk_identity [
        | none ↦ (none, w)
        | some bytes ↦ elim (services.from_utf8 bytes) [
          | none ↦ (none, w)
          | some text ↦ elim (services.parse_identity text) [
            | none ↦ (none, w)
            | some identity ↦ lookup_identity identity w
          ]
        ]
      ])

  abbrev called : Result String (AuthOutcome A T) → Result EndpointError (AuthOutcome A T)
  called (ok outcome) = ok outcome
  called (err e) = err (service_error e)

  unfoldable pub authenticate :
      Packet Certs
      → Option (VerifiedIdentity A T)
      → World
      → Result EndpointError (AuthOutcome A T) × World
  unfolding authenticate_mqtt
  authenticate packet identity w =
      let call : Option String → Result EndpointError (AuthOutcome A T) × World = λ password.
        let r =
          authenticate_mqtt services.authenticator packet.username password packet.client_id
            packet.certs identity w in
        (called r.0, r.1) in
      elim packet.password [
        | none ↦ call none
        | some bytes ↦ elim (services.from_utf8 bytes) [
          | none ↦ (err authentication_error, w)
          | some password ↦ call (some password)
        ]
      ]

  -- The section of the device, or else of the application.
  unfoldable pub dialect_of : A → T → Result ServerError MqttDialect
  dialect_of application device =
      let read : Option (Result String MqttDialect) → Result ServerError MqttDialect = λ section.
        elim section [
          | none ↦ ok services.default_dialect
          | some r ↦ elim r [ ok dialect ↦ ok dialect | err e ↦ err (configuration e) ]
        ] in
      elim (services.device_dialect device) [
        | some r ↦ read (some r)
        | none ↦ read (services.application_dialect application)
      ]

  unfoldable pub create_session :
      A → T → Option LastWillTestament → World → Result ServerError (Created A T) × World
  unfolding dialect_of
  create_session application device lwt w = elim (dialect_of application device) [
    | err e ↦ (err e, w)
    | ok dialect ↦
        let r = services.create_state application device lwt w in
        elim r.0 [
          | state_created ↦
              (ok (record { application = application; device = device; dialect = dialect }), r.1)
          | state_occupied ↦ (err (state_error "State still occupied"), r.1)
          | state_failed ↦ (err (internal "Failed to contact state service"), r.1)
        ]
  ]

  unfoldable pub connect :
      Bool → Version → Packet Certs → World → Result ServerError (Created A T) × World
  unfolding verified_identity authenticate create_session make_lwt
  connect disable_psk version packet w =
      if not packet.clean
      then (err unsupported, w)
      else let identity = verified_identity disable_psk packet w in
        let r = authenticate packet identity.0 identity.1 in
        elim r.0 [
          | err e ↦ (err authentication_failed, r.1)
          | ok outcome ↦ elim outcome [
            | auth_fail ↦ (err authentication_failed, r.1)
            | auth_pass application device ↦
                create_session application device (make_lwt version packet) r.1
          ]
        ]

-- The answer to a CONNECT, `connect_v3` and `connect_v5`.
pub data HandshakeAck (S : Type 0) : Type 0 where
  accepted : S → HandshakeAck S
  bad_username_or_password : HandshakeAck S

unfoldable pub handshake : {S : Type 0} → Result ServerError S → HandshakeAck S
handshake (ok session) = accepted session
handshake (err e) = bad_username_or_password

-- `publish_v3`: an error ends the connection.
unfoldable pub publish_v3 : Result PublishError (Unit {0}) → Result ServerError (Unit {0})
publish_v3 (ok _) = ok tt
publish_v3 (err e) = err (publish_error e)

-- `publish_v5`: an error is in the answer.
pub data PublishAck : Type 0 where
  plain : PublishAck
  reason : String → PublishAckReason → PublishAck

unfoldable pub publish_v5 : Result PublishError (Unit {0}) → Result ServerError PublishAck
unfolding publish_ack
publish_v5 (ok _) = ok plain
publish_v5 (err e) = ok (reason (publish_ack e).0 (publish_ack e).1)
