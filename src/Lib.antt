-- ===== src/Lib.antt =====
-- The core of the Lore auth bridge, a server that logs users in through identity providers and
-- issues the tokens with which a Lore server lets them read and write repositories.
--
-- Parts. The services of crates/lore-auth-core (tokens, devices, logins, permissions, resources) work
-- on ports, which the adapters of crates/lore-auth-adapters implement. The adapter that is modelled is
-- the in-memory store, which implements all ports on one state behind one lock; its audited form does
-- the writes of an administrator and logs them. A device is approved by a logged-in user, and is then
-- redeemed for a token; a token exchange asks the store for each resource and checks the grants, which
-- reach a user directly or through nested groups.
--
-- Files.
--   Base            what the parts share: results and methods on a state (Base.Actions), 64-bit words
--                   and durations (Base.Words), texts, lists, and hash maps (Base.Maps)
--   Model           crates/lore-auth-core/src/model.rs: Roles, Ids, Entities
--   Memory          crates/lore-auth-adapters/src/memory/: State, Helpers and Nesting are mod.rs, Groups
--                   is groups.rs, Grants is grants.rs, Resources is resources.rs, Devices is
--                   devices.rs, Sessions is state.rs, Tokens is tokens.rs, Accounts is accounts.rs and
--                   Audited is audited.rs
--   Service         crates/lore-auth-core/src/: Ports is ports.rs; Token, Permission, Resource, Device
--                   and Login are the files of service/; Wiring puts the store behind the ports
--   Adapters        crates/lore-auth-adapters/src/: Authz is authz.rs and permissions.rs, Registry is
--                   idpregistry.rs and staticidp.rs
--   Inbound         crates/lore-auth-inbound/src/: RateLimit is ratelimit.rs, Status is status.rs, Auth
--                   is grpcauth.rs, Rebac is grpcrebac.rs, Peer is peer.rs, Admin is admin/guard.rs;
--                   Http is httpserver/: Answers is response.rs and body.rs, Text is the texts of
--                   response.rs, Session and Endpoints are session.rs, Tokens, Device,
--                   Middleware and Login are the files of those names. Reply is how a handler runs
--   Tests           a small store, and the theorems at it
-- The modules below a component prove its theorems: Memory.Groups.Acyclic those on the nesting of
-- groups, Memory.Devices.Steps those on the states of a device, and so on. A method has the name that
-- it has in the source, `get` of the resource service is `get_resource`, and the two methods `record`
-- of the logs are `record_issued` and `record_audit`.
--
-- Modelling. A method is a function from the world to a result and the world after it; what was
-- written before an error stays written. The world is the state of the store with what comes from
-- outside: streams of random ids and of readings of the clock, SHA-256, and the `{:?}` form of a text,
-- all parameters of the model. The lock is held for the whole of a method, so a method is one step; a
-- theorem on histories covers every order of calls. A hash map is an association list with one entry
-- for each key (`IsMap`), in the order in which one run of the program would go through it. An `i64`
-- is the pattern of its 64 bits, and additions wrap. The services take the ports as records of
-- methods on any state. An `Instant` of the limiters is a number. A handler answers or returns early
-- with a status or a response. What the web framework and other packages do is a parameter: the
-- decoders of forms and JSON, the parser of URLs and networks.
--
-- Bounds. The loop of `group_group_would_cycle` has as fuel the number of edges and two more; a visit
-- uses up the edges of a group once. The loop that collects the groups of a user has the number of
-- entries and one more; each round but the last adds an entry. The loop of `group_paths_for_user` has
-- the length of its queue, the number of entries and one more; each entry joins the queue once. The loop
-- of `reachable_group_ids_from_tuples` has the number of tuples and one more.
--
-- Not modelled: the SQLite store, whose logic is SQL, and the queries of authz.rs; the signing of tokens, OIDC and configuration,
-- which are calls of libraries; the pages of the administration behind their guard, and the programs.
mod Base
pub mod Model
pub mod Memory
pub mod Service
pub mod Adapters
pub mod Inbound
pub mod Tests
