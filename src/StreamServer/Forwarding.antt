-- ===== src/StreamServer/Forwarding.antt =====
-- streamserver-cvn-cli/streamserver.cpp: the loop over the clients of the server.
use streamserver_cvn.Prelude.{
  ℕ, ◌≡◌, refl, sym, Bool, List, [], ◌∷◌, ◌++◌, append-nil, Option, none, some, Bytes, All,
}
use streamserver_cvn.TsPacket.{Clock, TsPacket}
use streamserver_cvn.Http.Response.{Response}
use streamserver_cvn.Http.Connection.{WriteResult}
use streamserver_cvn.StreamClient.Stream.{Streams, all_of, stream, queue_packet-stream}
use streamserver_cvn.StreamServer.Input.{Connected, queue_all}

abbrev pub Both : {A : Type 0} → (A → A → Type 0) → List A → List A → Type 0
Both R [] [] = Unit {0}
Both R [] (y ∷ ys) = ⊥
Both R (x ∷ xs) [] = ⊥
Both R (x ∷ xs) (y ∷ ys) = R x y × Both R xs ys

abbrev pub packets_of : Option TsPacket → List TsPacket
packets_of none = []
packets_of (some p) = p ∷ []

module _ (number : ℕ → Bytes) where
  -- A client that the stream is forwarded to.
  pub record IsServed (c : Connected) : Type 0 where
    pub strip : Bool
    pub response : Response
    pub streams : Streams number strip response c.client

  -- From one client to the other, so many packets have been added to its stream.
  pub record Gets (packets : List TsPacket) (c d : Connected) : Type 0 where
    pub strip : Bool
    pub response : Response
    pub before : Streams number strip response c.client
    pub after : Streams number strip response d.client
    pub same_id : d.id ≡ c.id
    pub grows :
        all_of number strip response d.client after
        ≡ all_of number strip response c.client before ++ stream strip packets

  Gets-nothing : (c : Connected) → IsServed c → Gets [] c c
  unfolding stream
  Gets-nothing c s = record {
    strip = s.strip;
    response = s.response;
    before = s.streams;
    after = s.streams;
    same_id = refl;
    grows = sym (append-nil (all_of number s.strip s.response c.client s.streams));
  }

  pub Both-nothing : (cs : List Connected) → All IsServed cs → Both (Gets []) cs cs
  Both-nothing [] h = tt
  Both-nothing (c ∷ cs) (h, hs) = (Gets-nothing c h, Both-nothing cs hs)

  module _ {T : Type 0} (to_secs : Clock → T) (lt : T → T → Bool) (plus_one : T → T) where
    pub queue_all-Gets :
        (answers : ℕ → List WriteResult) (p : TsPacket) (cs : List Connected)
        → All IsServed cs
        → (ds : List Connected) × ((queue_all to_secs lt plus_one number answers p cs ≡ some ds)
            × Both (Gets (p ∷ [])) cs ds)
    unfolding queue_all
    queue_all-Gets answers p [] h = ([], (refl, tt))
    queue_all-Gets answers p (c ∷ cs) (h, hs) =
        let (d, (stops, (after, grows))) =
          queue_packet-stream number h.strip h.response p (answers c.id) c.client h.streams in
        let (ds, (all_stop, both)) = queue_all-Gets answers p cs hs in
        (
          record { id = c.id; client = d } ∷ ds,
          (
            rw (stops, queue_all) (rw all_stop),
            (
              record {
                strip = h.strip;
                response = h.response;
                before = h.streams;
                after = after;
                same_id = refl;
                grows = grows;
              },
              both,
            ),
          ),
        )
