-- ===== src/Lib.antt =====
-- AUK, a desktop API client: the pure cores of its Go packages, and what makes them correct.
--
-- Go strings are byte lists (`Bytes`, Base/Text.antt), compared and searched as the package
-- `strings` does; `int` is `ℤ` with the 64-bit bound of `strconv.Atoi` (Base/Int.antt). Errors keep
-- their kind and not their message. A Go panic is `none`.
--
-- Storage/OrderKey.antt models internal/storage/orderkey.go (`order_key_between` is
-- OrderKeyBetween); Storage/Heal.antt models internal/storage/orderkey_heal.go (`heal_group`), where
-- strings.ToUpper is modelled on ASCII text: it ranks other text, as a key edited by hand may be, by its
-- bytes.
-- Storage/Tree.antt and Storage/Environments.antt model internal/storage/filestore.go: `put_item` is
-- PutFolder and PutRequest, `remove_folder` is RemoveFolder on fuel, enough of which is one more than
-- the height of the folder (Storage/Tree/Ends.antt), `put_environment`, `remove_environment` and
-- `get_environment` are its environments over files and keychain. A file is what it decodes to, and
-- which accesses fail is an argument. Loading, workspaces, responses and MCP connections are left aside.
-- `midpoint` runs on fuel, one more than the lengths of its bounds, which every call reduces.
-- Updater/Version.antt models internal/updater/version.go.
-- JsonPath.antt models internal/jsonpath/jsonpath.go; its loop runs on the length of the path.
-- Core/Chaining.antt models internal/core/chaining.go, with the package's own copy of that
-- evaluator and the guard on nested sends.
-- License/Trial.antt models internal/license/trial.go, License/Canonical.antt the signed bytes of
-- model.go and keys.go there, License/Manager.antt manager.go and license_store.go. An instant is a
-- count of nanoseconds from Go's zero time. Each call reads the clock and the machine's id once.
-- Which accesses of the keychain and of the files fail is an argument of each call. Ed25519, base64,
-- the JSON reader, the printers of times and counts, and the activation server are parameters.
-- StartTrialIfNeeded, MachineID, activator.go, fingerprint.go and keychain.go are not modelled: they
-- only pass values on or do input and output.
-- Core/Engine.antt models internal/core/engine.go on the data of Core/Model.antt
-- (internal/core/model/model.go). Core/Vars.antt has Go's maps of strings, kept in the order of their
-- keys. Of the engine, RunVars.antt is RunScopedVars, the layer of one data-driven run; Layers.antt is
-- folderVariables and mergedEnvironment, where the walk up the folders runs on fuel and `none` is a
-- walk that has not ended; Secrets.antt is what a script may see (variableMap, secretValues, the
-- redaction); Request.antt is redactResolved and mergeScriptEdits; Writes.antt is applyVariableWrites
-- over the stored environments, the session and the run; Run.antt is the path of a send, with
-- resolveAndAuthorize in Run/Resolve.antt and RunRequest in Run/Send.antt. The store, the templater, the
-- auth applier, the scripter, the policy and the protocols are a record of services; the templater may
-- itself run requests, so it acts on the engine's world. Contexts are arguments: the chain state and
-- the run's layer. Cancellation, locks, the event sink and the wiring of an engine are not modelled, and
-- copies that only guard against aliasing (cloneResolved, cloneAuthConfig) are the value itself. The
-- modelled store lists raw environments, as storage.FileStore does; the fallbacks for others are not.
-- Writes/Landed.antt reads the stored environment as it is: what GetEnvironment fills in from the
-- keychain stands under names of secrets only, which no script's write lands on.
-- Core/PathParams.antt models internal/core/pathparams.go; the map of values is a list of rows.
-- MockServer/Path.antt and MockServer/Route.antt model internal/mockserver/route.go: the store is a
-- list of requests with the status of their last response, the set of methods is kept as the sorted
-- list that it is printed as, and url.PathUnescape is a parameter. strings.ToUpper is modelled on ASCII text, which methods are.
-- Assert.antt models internal/assert/assert.go and ResponseData.Passed of
-- internal/core/model/assert.go. The printers, strings.EqualFold, base64, strconv.ParseFloat and regexp
-- are parameters, and so is the path evaluator, which the tests fill with that of JsonPath.antt.
-- Runner.antt models Verdict and the counts of RunSummary of internal/runner/runner.go, and
-- Runner/Plan.antt runOne, checksOf and runPlan: the loop over rows and requests acts on a state of any
-- type through the calls that it makes. Times, labels and Run's wiring to an engine are not modelled.
-- CookieJar.antt models internal/cookiejar/cookiejar.go; the parser of cookies is a parameter.
-- SecretRef.antt models internal/secretref/secretref.go; a resolver is what it answers.
--
-- The other packages, which send, store, print or drive other programs, are not modelled.
pub mod Base
pub mod Storage
pub mod Updater
pub mod JsonPath
pub mod Core
pub mod License
pub mod MockServer
pub mod Assert
pub mod Runner
pub mod CookieJar
pub mod SecretRef
