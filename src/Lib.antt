-- ===== src/Lib.antt =====
-- Flowify workflow server: who may do what, and how documents are stored, listed and resolved.
--
-- The server keeps components, workflows and jobs in MongoDB, each document in versions, and
-- lets a user work in the workspaces that the roles of the user give access to.
--   * User models user/user.go: the roles of a user, ownership of lists of roles.
--   * Workspace models the access checks of pkg/workspace/workspace.go; Workspace/Configs the config
--     maps of the workspaces.
--   * Auth models auth/auth.go, the authorizer of the handlers for secrets and volumes, which
--     asks Workspace; Auth/Token models auth/azure_token.go, which makes the user of a request.
--   * Models models the data types of models/models.go and models/job.go; Models/Versions the
--     version numbers and tags.
--   * Storage/Access models the workspace check of storage/mongo.go; Storage/Versioned its
--     callbacks and operations on versions, each of which takes the list of the documents of a
--     collection and returns the new one. Components and workflows share them through the
--     interface Document. The files below Storage/Versioned hold the lemmas.
--   * Storage/Documents models the operations of the same file on workflows and jobs and the
--     deletion of every kind of document: Storage/Versioned with the workspace checks in front.
--   * Storage/Listing models the listings of components, workflows, versions and jobs, with the
--     filters and sorts that Storage/Query, storage/parsequery.go, reads from a request.
--   * Storage/References models storage/references.go, which puts stored components in place of
--     the references to them.
--   * Storage/Local models storage/local.go, the store in memory.
--   * Storage/Volumes models storage/mongovolumestorage.go, the volumes of the workspaces; Rest the
--     middleware of rest/rest.go that authorizes a request, and the handlers of rest/volumes.go;
--     Rest/Paging the handlers of the listings in rest/components.go, Rest/Components its other
--     handlers, Rest/Workflows those of rest/workflows.go and Rest/Jobs those of rest/jobs.go, which
--     use the storage, the transpiler and Argo's client. Rest/Requests is what they share.
--   * Transpiler models the helpers of transpiler/helpers.go: the volumes, the secrets and the
--     arguments that the nodes of a graph are given on the way to Argo. Below it are transpiler.go
--     and argo.go: Transpiler/Argo has Argo's types, Transpiler/Tasks the inputs of the tasks,
--     Transpiler/Templates `AddBrick`, `AddGraph`, `AddMap` and `AddConditional`, Transpiler/Traverse
--     `TraverseComponent`, and Transpiler/Submission `GetArgoWorkflow`, which makes the workflow of a
--     job.
--   * Common holds lists, 64-bit integers, texts and error results; Examples the runs.
--
-- Go's `int` is an integer whose increment wraps at 64 bits. UUIDs and times are natural numbers.
-- The MongoDB driver, with the aggregation of a pipeline, the JWT library, the parser of RFC 3339
-- times and the reading of integers are parameters: functions, or records of calls, and records
-- of laws that state their documented behaviour. Regular expressions are written out as
-- functions. A collection is the list of its documents as they decode, and an insertion adds the
-- document itself. So the results on stored documents are about those that decode to what was
-- encoded, and not about components with a volume among their results, which are read back as files.
-- A transaction is atomic, and transactions on one collection follow one another.
-- An update of a workflow reads it before its transaction, and the two may find two different lists;
-- in the other operations that read first, no other request comes in between.
-- Loops follow a list, but for two. The traversal of Storage/References calls itself on what the
-- references lead to, and takes fuel for the depth. More fuel than the rank of a component is
-- enough, where a rank that falls along each reference exists. A component that refers to itself
-- has none, and no fuel is enough for it. The search for a volume in Transpiler takes fuel for
-- its steps along the edges: more than the rank of the node is enough, where each edge leads from
-- a node of a smaller rank. Where the transpiler panics on a nil pointer, the model has an error;
-- the order of Go's maps is left open, and so is that of the variables and volumes made of them.
-- Texts of error messages leave out the values that are printed in them.
--
-- Not modelled: the HTTP handlers of secrets, workspaces and users, the stream of events but for
-- its loop, HTTP headers, decoding of JSON and BSON, the informer of the workspaces,
-- Kubernetes calls, logging and configuration.
pub mod Common
pub mod User
pub mod Workspace
pub mod Auth
pub mod Models
pub mod Storage
pub mod Transpiler
pub mod Rest
pub mod Examples
