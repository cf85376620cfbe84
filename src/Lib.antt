-- ===== src/Lib.antt =====
-- kotoji hosts static sites: each site has a handle, its content is a git repository, and each
-- branch is served under a host name of its own, `handle.base` for the published branch and
-- `handle--branch.base` for any other. Sites are edited through a REST API and, by AI clients,
-- through MCP. This library models the decisions on which this rests, from the Go code of
-- backend/internal, and proves what they guarantee.
--
-- The parts. The site package decides at creation which names exist; the resolver decides for each
-- request which site and branch it is for; the gate of the TLS edge asks the resolver and the store
-- whether a certificate may be obtained for a host. Who signs in is decided by the policy, the
-- lockout and the replay guard of the auth package; who may do what on a site by the matrix of the
-- REST API, which caps the tokens of MCP. The rate limiter counts requests per address. The site
-- service commits writes to the branches of a site's repository, publishes a branch, and keeps the
-- handles of the sites and their former ones; the scheduler's jobs reclaim the sites that were deleted.
-- The handler of the data plane answers a resolved request with a file of the site's tree; a preview is
-- only shown with a signed grant.
--
--   Label, Resolve     backend/internal/resolve/resolver.go. `Resolve` is `resolve`; a `*Target` or
--                      an error is a `Result`; `NewResolver` is `new_resolver`. Grammar has the
--                      validators, Sound and RoundTrip the two directions of routing, Forwarding
--                      the headers of proxies, Overlong the labels that do not fit.
--   Site/Handle        backend/internal/site/handle.go. `ValidateHandle` is `validate_new_handle`,
--                      `splitLabel` is `split_site_label`. Site/Naming relates it to the resolver.
--   Site/Paths         backend/internal/site/path.go and the lists of mime.go: `validatePathWith` is
--                      `validate_path_with`. Walk says where a path leads, Complete that the gate
--                      asks for nothing else, Gates relates the gates of the callers. Content is
--                      `validateContentPath` of backend/internal/mcpserver/registry.go.
--   Repo               backend/internal/site/git_service.go and git_helpers.go: Writes is `WriteFile`,
--                      `DeleteFile`, `Commit` (as `save`) and `Rollback` with `checkBaseSHA` and
--                      `commitStaged`, Publishing is `Publish`, Branches is `CreateBranch` and
--                      `DeleteBranch`. Laws is what is relied on of git; Steps, Locking and Isolation
--                      follow the tip of one branch through a call, Taking, Published, Advance and
--                      Republish the published branch and the row's pointer, Merging the merge in a
--                      worktree of its own, Creation the branches
--                      made.
--                      Importing is `ImportZip` of backend/internal/site/zip.go with
--                      `replaceWorktree`; Imports, Imported and Replacing follow the branches through it.
--   Zip                backend/internal/site/zip.go: Zip is `validateAndReadZip`, over the entries that
--                      archive/zip gives; Naming, Extraction and Archive say what is accepted.
--   Registry           `CreateSite`, `RenameHandle`, `DeleteSite` and the lookup of `ResolveForServing` in
--                      backend/internal/site/git_service.go, over the tables of sites and redirects as
--                      backend/internal/db/queries/sites.sql and store.go read and write them.
--                      Following says where the handles lead after a rename, Renaming and Creating
--                      what a whole call does, Deleting the same of `DeleteSite`, Consistency that the
--                      tables agree.
--   Ops                backend/internal/ops/ops.go and scheduler.go: `Reap` and `reapOne` in Ops itself,
--                      `GC` and `Consistency` in Housekeeping, the loop in Scheduler.
--   Action             Go code that returns an error and changes a state before it does.
--   TlsEdge            backend/internal/tlsedge/decision.go: `Allow`, `existsCached`.
--   Auth/Access        backend/internal/auth/access.go: the policy of a sign-in.
--   Auth/Lockout       backend/internal/auth/lockout.go: the tracker of failed logins.
--   Auth/SingleUse     backend/internal/auth/singleuse.go: the in-memory replay guard.
--   Ratelimit          backend/internal/ratelimit/ratelimit.go: ClientIp is `ClientIPHops` and its
--                      scans, Limiter is `Limiter` and `Middleware`.
--   Trees              backend/internal/serve/treeprovider.go: the cache of the trees of previews,
--                      Eviction a call of it, History any number of calls.
--   Authz              Api is backend/internal/api/authz.go; Mcp is
--                      backend/internal/mcpserver/authz.go and `mapError` of registry.go. Membership is
--                      backend/internal/api/members.go over backend/internal/db/queries/members.sql.
--   Preview            backend/internal/serve/authz.go: `SignGrant`, `verifyGrant`, `Authorize` and
--                      `stripGrantParam`. Signing and Splitting are the round trip of a grant, Handoff
--                      and Cookies who is let in, Sound that nobody else is.
--   Serve, Location    backend/internal/serve/static.go: Serve is `ServeHTTP` and the handlers below it,
--                      Location where their redirects lead. Fallback says when a request is answered,
--                      Gate who is shown a file, Cleaning where a path leads, and Location/Former that a
--                      redirected host is the one that the resolver knows.
--   Domaincfg          backend/internal/domaincfg/validate.go: `ValidateBaseDomain`.
--   Text, Table        what the code uses of Go: strings as lists of bytes, maps as functions.
--   Prelude            the library names, Boolean tests, lists and results that all parts share.
--   Tests              runs at concrete inputs, and each theorem applied to one.
--
-- The state of each part is a record, an operation returns the new state beside its result, and a
-- history is a list of calls with the instants at which they read the clock. An operation is one
-- step where it holds a lock for all of its work: the mutex of the lockout, of the replay guard and of
-- the rate limiter, and the lock of a site around a call of the site service. Elsewhere a step is a
-- simplification: in the gate of the edge the store is asked between two locked accesses of the cache,
-- and a handshake is taken to be done before the next begins; the same holds of the cache of trees; the
-- handlers of members and the calls on the tables of sites take no lock, and are taken one after the
-- other, but for the two removals of Authz/Membership/Racing.
-- An instant is a number of nanoseconds. `now.Sub(t) >= d` is written as the sum `t + d ≤ now`, which
-- is the same within the range of a `time.Duration`.
--
-- Parameters. `Unicode` stands for the tables behind `strings.ToLower` and `strings.TrimSpace` on a
-- text that is not ASCII; nothing is assumed of it. `RateLib` stands for golang.org/x/time/rate and
-- the floating-point rate. The store, the site service, the memberships and the resolver that the
-- gate asks are functions into what they answer, errors included. `Git` stands for the command git
-- on a repository and its worktree, a field for each command; `IsGit` states what its documentation
-- says of branches, and Tests/Repos has a small git that satisfies it. It says so of names that only a
-- branch can have: of the grammar of branches, and none that git would read as the hash of an object;
-- the service does not keep a write from naming something else, such as HEAD. `Host` and `IsHost` are the
-- same for the store, the files and git as the jobs of Ops use them, with Tests/Reapers.
--
-- `Codec` stands for HMAC, base64 and the formats of uuid and strconv; `IsCodec` states the round trips
-- that a grant relies on, and Tests/Previews has one. `Folding` is `strings.EqualFold` beside the tables.
--
-- Loops recurse on a list, a length or a count of rounds. The doubling of the lockout runs for as
-- many rounds as there are failures past the threshold, as the source's does; its values stay below
-- twice the cap, which a `time.Duration` holds. Fuel is only used in Serve: `writeContent` and
-- `writeNotFound` call each other, and their rounds are these calls. Three are enough on every site
-- that has no 404.html or one that can be read, and no number is enough on another.
--
-- Not modelled: of the site service the readers (files, log and diff), the mirror, the served worktrees
-- and the unpacking of archives into them; of static serving the headers, caches and the injected
-- base; sessions, the tools of MCP and webhooks, which are left for later; HTTP, the database,
-- generated code, configuration and the frontend, which are glue around other software.
pub mod Prelude
pub mod Text
pub mod Label
pub mod Location
pub mod Resolve
pub mod Site
pub mod Table
pub mod Auth
pub mod TlsEdge
pub mod Action
pub mod Repo
pub mod Ops
pub mod Registry
pub mod Domaincfg
pub mod Ratelimit
pub mod Authz
pub mod Zip
pub mod Preview
pub mod Serve
pub mod Trees
pub mod Tests
