-- ===== src/Lib.antt =====
-- The rest-dynamic-controller reconciles custom resources with an external REST API: it reads how
-- the API is called from a RestDefinition, builds requests from the resource's spec and status,
-- compares what the API returns with the spec, and creates, updates and deletes accordingly.
--
-- Files, and the code that each is about (paths from the repository's root):
--   Base         shared names, lists, texts (bytes as numbers), association lists for Go's maps,
--                64-bit multiplication, and the errors, named for their kind
--   Value        interface{} values of decoded JSON
--   Externals    the code that is called and is not in the repository: the splitter, gojq,
--                apimachinery's nested field functions, float formatting; a parameter everywhere
--   Path         internal/tools/pathparsing: Path.Parse is ParsePath, Path.Nested is nested.go
--   Comparison   internal/tools/comparison/comparison.go; Comparison.Deep is DeepEqual
--   DeepCopy     internal/tools/deepcopy/deepcopy.go; DeepCopy.Copies is about it
--   Definition   the types of internal/tools/definitiongetter/getter.go
--   Async        internal/tools/async/async.go
--   Mapping      internal/tools/fieldmapping; Mapping.Response is the response direction
--   Builder      internal/tools/client/builder/builder.go, with the client's interface; the calls
--                use Mapping and Path
--   Search       the search of a findby call in internal/tools/client/restclient.go and
--                clienttools.go
--   Pagination   internal/tools/pagination
--   Rest         internal/tools/client: the OpenAPI document as the client reads it; Rest.Params and
--                Rest.Bodies are its queries in clienttools.go, Rest.Calling is Call and
--                Rest.Finding FindBy of restclient.go. Rest.Validation, Rest.Effective,
--                Rest.Flattening, Rest.Entries, Rest.Leaves, Rest.Answers, Rest.Outcomes,
--                Rest.Pages and Rest.Endings are about them
--   Secrets      internal/tools/secretrbac, CollectSecretRefNames of internal/tools/fieldmapping,
--                and internal/controllers/secretrbac_integration.go
--   Getter       Get of internal/tools/definitiongetter/getter.go (Getter.Lookup), with the
--                configuration and authentication (Getter.Credentials, internal/tools/auth) and
--                internal/tools/jqmodule (Getter.Modules, and Getter.Cache for the cache)
--   Handler      internal/controllers: the world, the state and its monad; Handler.Waiting is
--                async_handler.go, Handler.Requeue is async_requeue.go, Handler.Delegation is
--                mutate_restaction.go, Handler.Observing is existence.go, observe_restaction.go and
--                isCRUpdated; of restResources.go, Handler.Seeing is Observe, Handler.Writing is
--                Create and Update, Handler.Deleting is Delete. Handler.Evidence, Handler.Shown and
--                Handler.Seen are about Observe, Handler.Changes, Handler.Steps, Handler.Sent and
--                Handler.Written about Create and Update
--   Tests        concrete inputs at which the theorems are applied
--
-- The handlers use the builder, the comparison and the mappings as they are modelled; the REST client,
-- the getter and the secret roles stand behind fields of the world, which Rest, Getter and Secrets
-- model apart. The state of a handler is the custom resource and a trace of its effects; what the world
-- answers is a function of the trace, so that it may change between two equal calls. Go's errors are
-- values named for their kind, without their messages. Letter case and white space are those of
-- ASCII, where Go's are those of Unicode. Maps are association lists, whose order stands
-- for the order in which range visits the keys.
--
-- Loops over lists are structural. The polling loop recurses on the attempts that are left, which
-- the code bounds itself, as does the walk of a body's schema, which goes 21 levels deep. FindBy's
-- loop over the pages has no bound in the code and takes one here, which the number of the pages that
-- the server's tokens lead to is enough for. The only other fuel is that of decimal formatting, where
-- the number is enough.
--
-- Not modelled: the download and parsing of the OpenAPI document in BuildClient, schemas that refer to
-- themselves or cannot be built, the debug dump of calls and its redaction, the instrumentation and
-- the metrics, the token exchange (internal/tools/authn), the HTTP client of the jq modules with the
-- guard of its dialer, the jq engine, the snowplow client, the file getter, the text helpers, logging,
-- the mock server and main.go.
pub mod Base
pub mod Value
pub mod Path
pub mod Definition
pub mod Externals
pub mod Async
pub mod Comparison
pub mod DeepCopy
pub mod Mapping
pub mod Builder
pub mod Handler
pub mod Rest
pub mod Secrets
pub mod Getter
pub mod Tests
pub mod Search
pub mod Pagination
