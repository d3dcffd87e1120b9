-- ===== src/Client/Invites.antt =====
-- client.ts: the operations on names and invites. A roster name that is neither a string nor absent
-- makes the filter that compares it throw.
use Prim.Native.Char.{code}
use Prim.Native.String as Native
use dap.Common.{
  ℕ, zero, suc, Bool, true, false, not, ◌&&◌, ◌||◌, Option, none, some, String, List, [], ◌∷◌, ◌++◌,
  map, any, length, leb, nat_beq, ◌==◌, string_eq, if◌then◌else◌,
}
use dap.Json.{Value, undefined, null, bool, num, str, to_string}
use dap.Config.{PendingInvite, no_update}
use dap.Crypto.{join_comma, ◌+s+◌}
use dap.Channels.{ChankeyInvite}
use dap.Client.State.{
  HubErrorEvent, ChannelKey, MsgEvent, PresenceAgent, ArmedInvite, returns, throws, done, armed,
  by_name_presence, arm_ensured, deliver_presence, deliver_invited, surfaced, Stack, Host, Client,
}
use dap.Client.Wire.{
  not_connected, connected, settle, ring_error, deliver, persist_config, agent_id,
}
use dap.Client.Calls.{ensure_channel, invite, presence}

-- `/^[0-9a-f]{16}$/.test(who)`
abbrev pub all_hex : String → Bool
all_hex Native.[] = true
all_hex (Native.◌∷◌ c s) =
    ((leb b'0' (code c) && leb (code c) b'9') || (leb b'a' (code c) && leb (code c) b'f'))
    && all_hex s

abbrev pub count_chars : String → ℕ
count_chars Native.[] = 0
count_chars (Native.◌∷◌ c s) = suc (count_chars s)

abbrev pub is_agent_id : String → Bool
is_agent_id who = nat_beq (count_chars who) 16 && all_hex who

abbrev pub is_online : Value → Bool
is_online (bool b) = b
is_online _ = false

abbrev pub get_elem? {ℓ} : {A : Type ℓ} → List A → ℕ → Option A
get_elem? [] i = none
get_elem? (x ∷ xs) zero = some x
get_elem? (x ∷ xs) (suc i) = get_elem? xs i

-- `xs.filter(p)`, where `p` may throw.
abbrev pub filter_checked {ℓ} : {A : Type ℓ} → (A → Option Bool) → List A → Option (List A)
filter_checked p [] = some []
filter_checked p (x ∷ xs) =
    let rest = filter_checked p xs in
    elim (p x) [
      | none ↦ none
      | some true ↦ elim rest [ none ↦ none | some ys ↦ some (x ∷ ys) ]
      | some false ↦ rest
    ]

-- `xs.splice(i, 1)`
unfoldable pub remove_at {ℓ} : {A : Type ℓ} → ℕ → List A → List A
remove_at i [] = []
remove_at zero (x ∷ xs) = xs
remove_at (suc i) (x ∷ xs) = x ∷ remove_at i xs

abbrev pub error_event : String → String → Client → HubErrorEvent
error_event code msg c = record { code = code; msg = msg; ts = c.clock; from = none; id = none }

-- `ch.priv`, unless it is absent or empty.
abbrev pub private_key : ChannelKey → Option String
private_key ch = elim ch.priv [ none ↦ none | some s ↦ if s == "" then none else some s ]

abbrev pub chankey_of : String → ChannelKey → String → ChankeyInvite
chankey_of channel ch priv = record { channel = channel; pub_key = ch.pub_key; priv = priv }

abbrev pub text_of : Value → Option String
text_of undefined = none
text_of v = some (to_string v)

unfoldable pub surface_invite_failure : String → Client → Client
unfolding ring_error
surface_invite_failure err c =
    let msg = "pending invite check failed: " +s+ err in
    ring_error (error_event "invite_failed" msg c) (record c { last_error = msg })

module _ (h : Host) where
  -- `a.name?.toLowerCase() === wanted`; `none` where it throws.
  abbrev pub matches_name : String → Value → Option Bool
  matches_name wanted (str s) = some (h.lower s == wanted)
  matches_name wanted undefined = some false
  matches_name wanted null = some false
  matches_name wanted _ = none

  -- `deliverPendingInvites`, up to its await.
  unfoldable pub poll_pending_invites : Client → Client
  unfolding presence
  poll_pending_invites c =
      if c.delivering || nat_beq (length c.pending_invites) 0 || not (connected c)
      then c
      else presence h (deliver_presence ∷ surfaced ∷ []) (record c { delivering = true })

  -- Those that the pending invite can be delivered to; `none` where the filter throws.
  abbrev pub targets : Client → PendingInvite → List PresenceAgent → Option (List PresenceAgent)
  targets c pending agents =
      filter_checked
        (λ a.
          if a.agent_id == agent_id h c
          then some false
          else matches_name (h.lower pending.name) a.name)
        agents

  -- The loop of `deliverPendingInvites` over the indices below `i`, from the last.
  unfoldable pub deliver_from : ℕ → List PresenceAgent → Stack → Client → Client
  unfolding invite settle
  deliver_from zero agents k c = settle k (returns done) (record c { delivering = false })
  deliver_from (suc i) agents k c =
      let next = deliver_from i agents k c in
      elim (get_elem? c.pending_invites i) [
        | none ↦ next
        | some pending ↦ elim (targets c pending agents) [
          | none ↦ settle k (throws h.lower_error) (record c { delivering = false })
          | some (a ∷ []) ↦
              invite h pending.channel a.agent_id (deliver_invited i pending agents ∷ k) c
          | some _ ↦ next
        ]
      ]

  abbrev pub invited_notice : PendingInvite → Client → MsgEvent
  invited_notice pending c = record {
    dm = false;
    channel = some pending.channel;
    from = agent_id h c;
    text = "[dap] invited " +s+ pending.name +s+ " to #" +s+ pending.channel;
    ts = num c.clock;
    invite = some pending.channel;
  }

  -- The pending invite at `i` was delivered.
  unfoldable pub remove_delivered : ℕ → PendingInvite → Client → Client
  unfolding remove_at persist_config deliver
  remove_delivered i pending c =
      let left = remove_at i c.pending_invites in
      let saved =
        persist_config h (record no_update { invites = some left })
          (record c { pending_invites = left }) in
      deliver (invited_notice pending saved) saved

  abbrev pub is_armed : String → String → Client → Bool
  is_armed name channel c =
      any (λ p. h.lower p.name == h.lower name && p.channel == channel) c.pending_invites

  abbrev pub armed_invite : String → String → Client → ArmedInvite
  armed_invite name channel c = record {
    name = name;
    channel = channel;
    connect_line = "send to " +s+ name +s+ ":  /dap " +s+ h.host_of c.url +s+ " " +s+ name;
  }

  -- `armInvite` after `await this.ensureChannel(channel)`.
  unfoldable pub arm_when_ensured : String → String → Stack → Client → Client
  unfolding persist_config poll_pending_invites settle
  arm_when_ensured name channel k c =
      let pending : List PendingInvite =
        c.pending_invites ++ record { name = name; channel = channel } ∷ [] in
      let kept =
        if is_armed name channel c
        then c
        else persist_config h (record no_update { invites = some pending })
            (record c { pending_invites = pending }) in
      settle k (returns (armed (armed_invite name channel c))) (poll_pending_invites kept)

  unfoldable pub invite_by_name : String → String → Stack → Client → Client
  unfolding invite presence settle
  invite_by_name channel who k c =
      if connected c
      then if is_agent_id who
        then invite h channel who k c
        else presence h (by_name_presence channel who ∷ k) c
      else settle k (throws not_connected) c

  abbrev pub ambiguous : String → List PresenceAgent → String
  ambiguous who agents =
      "\"" +s+ who +s+ "\" is ambiguous — use an id: " +s+ join_comma (map (λ a. a.agent_id) agents)

  -- `inviteByName` after `await this.presence()`.
  unfoldable pub invite_matching : String → String → List PresenceAgent → Stack → Client → Client
  unfolding invite settle ensure_channel
  invite_matching channel who agents k c =
      elim (filter_checked (λ a. matches_name (h.lower who) a.name) agents) [
        | none ↦ settle k (throws h.lower_error) c
        | some [] ↦ ensure_channel h channel (arm_ensured who channel ∷ k) c
        | some (a ∷ []) ↦ invite h channel a.agent_id k c
        | some (a ∷ b ∷ more) ↦ settle k (throws (ambiguous who (a ∷ b ∷ more))) c
      ]
