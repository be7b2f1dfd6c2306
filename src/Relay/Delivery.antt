-- ===== src/Relay/Delivery.antt =====
-- What a session with the relay delivers.
use mac_agent.Base.{
  Bool, true, false, if◌then◌else◌, ◌⊎◌, ◌≡◌, refl, sym, ap, ◌∙◌, true, false, Option, none, some,
  List, [], ◌∷◌, ◌++◌, append_assoc, append-nil, Bytes, length, ltb, if◌then◌else◌, inl, inr,
}
use mac_agent.Protocol.Types.{Message}
use mac_agent.Relay.{
  Client, SessionError, publish, write, Input, takes, publishes, ticks, ends, Written, behind,
  stopped, write_loop,
}

module _ (marshal : Message → Option Bytes) where
  -- The messages that `Publish` takes while the write loop runs, in order.
  unfoldable pub accepted : List (Input marshal) → Client → List Message
  unfolding publish
  accepted [] c = []
  accepted (ends ∷ rest) c = []
  accepted (ticks true ∷ rest) c = accepted rest c
  accepted (ticks false ∷ rest) c = []
  accepted (publishes m ∷ rest) c =
      let later = accepted rest (publish m c).0 in if (publish m c).1 then m ∷ later else later
  accepted (takes ok ∷ rest) c = elim c.outbound [
    | [] ↦ accepted rest c
    | m ∷ queue ↦
        let later = accepted rest (record c { outbound = queue }) in
        elim (write marshal c.config ok m) [ none ↦ later | some e ↦ [] ]
  ]

  -- What was queued and then accepted was sent in this order, but for a message whose write failed
  -- and for what is still queued.
  abbrev pub IsDelivered : List Message → Client → Written marshal → Type 0
  IsDelivered more c w =
      (c.outbound ++ more ≡ w.sent ++ (w.lost ++ w.client.outbound))
      × ((w.lost ≡ [])
          ⊎ ((m : Message) × (e : SessionError) × (w.lost ≡ m ∷ []) × (w.error ≡ some e)))

  abbrev with_queue : Client → List Message → Client
  with_queue c queue = record c { outbound = queue }

  -- What `publish` answers, by whether there is room.
  abbrev put_by : Client → Message → List Message → Bool → Client × Bool
  put_by c m queue free =
      if free then (with_queue c (queue ++ m ∷ []), true) else (with_queue c queue, false)

  put :
      (c : Client) (m : Message) (queue : List Message) (free : Bool) (more : Client → List Message)
      (later : Client → Written marshal)
      → ((q : List Message)
          → IsDelivered (more (with_queue c q)) (with_queue c q) (later (with_queue c q)))
      → IsDelivered
          (if (put_by c m queue free).1
            then m ∷ more (put_by c m queue free).0
            else more (put_by c m queue free).0)
          (with_queue c queue)
          (later (put_by c m queue free).0)
  put c m queue true more later ih =
      let (split, fate) = ih (queue ++ m ∷ []) in
      (sym (append_assoc queue (m ∷ []) (more (with_queue c (queue ++ m ∷ [])))) ∙ split, fate)
  put c m queue false more later ih = ih queue

  -- One write, which sends the message or ends the loop.
  taken :
      (c : Client) (m : Message) (queue : List Message) (failure : Option SessionError)
      (more : List Message) (later : Written marshal)
      → IsDelivered more (with_queue c queue) later
      → IsDelivered
          (elim failure [ none ↦ more | some e ↦ [] ])
          (with_queue c (m ∷ queue))
          (elim failure [
            | none ↦ behind marshal m later
            | some e ↦ stopped marshal (with_queue c queue) (m ∷ []) (some e)
          ])
  taken c m queue none more later (split, fate) = (ap (λ l. m ∷ l) split, fate)
  taken c m queue (some e) more later ih =
      (ap (λ l. m ∷ l) (append-nil queue), inr (m, e, refl, refl))

  delivered :
      (inputs : List (Input marshal)) (c : Client) (queue : List Message)
      → IsDelivered
          (accepted inputs (with_queue c queue))
          (with_queue c queue)
          (write_loop marshal inputs (with_queue c queue))
  unfolding accepted write_loop publish
  delivered [] c queue = (append-nil queue, inl refl)
  delivered (ends ∷ rest) c queue = (append-nil queue, inl refl)
  delivered (ticks true ∷ rest) c queue = delivered rest c queue
  delivered (ticks false ∷ rest) c queue = (append-nil queue, inl refl)
  delivered (publishes m ∷ rest) c queue =
      put c m queue (ltb (length queue) c.config.queue_size) (accepted rest)
        (write_loop marshal rest) (λ q. delivered rest c q)
  delivered (takes answer ∷ rest) c [] = delivered rest c []
  delivered (takes answer ∷ rest) c (m ∷ queue) =
      taken c m queue (write marshal c.config answer m) (accepted rest (with_queue c queue))
        (write_loop marshal rest (with_queue c queue)) (delivered rest c queue)

  -- For any inputs of the write loop: the messages that were queued, followed by those that `Publish`
  -- took meanwhile, are those that were sent, in this order and each once, then the one whose write
  -- failed, where the loop returned for that, then those that are still queued.
  pub write_loop-IsDelivered :
      (inputs : List (Input marshal)) (c : Client)
      → IsDelivered (accepted inputs c) c (write_loop marshal inputs c)
  write_loop-IsDelivered inputs c = delivered inputs c c.outbound
