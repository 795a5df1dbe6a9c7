-- ===== src/Lib.antt =====
-- syver checks a system against a spec: it loads resources from YAML or JSON, runs the checks of
-- each, some of them behind prerequisites (`depends-on`), and prints the results.
--
-- Value models the values of a spec. Resource models what the schedulers see of a resource
-- (resource/resource.go, resource/key.go): its key and its reference. Resource/Results is the
-- result of a check (resource/validate.go), Resource/Reason the text of a skip reason
-- (resource/skip.go, oneLineSkipReason), and Resource/Skips the promotion of skips and the panic
-- barrier (resource/resource.go, resource/skip.go, resource/panic.go). Resource/Validating is the
-- check of one attribute (resource/validate.go, ValidateValue and ValidateGomegaValue), with the
-- matcher of what the spec expects as a parameter.
--
-- Resource/Statements are the forms of statement that the Validate methods of the resource types
-- are written with (resource/resource.go: isSet, isSetWarnEmpty, warnSpecOnce, deprecateAtoI), on
-- their variables `skip` and `results` and the warnings that the process has given. Resource/Types
-- has the types and their methods as lists of these: files, mounts, packages and registry keys
-- (resource/file.go, mount.go, package.go, registry.go) in Files, users, groups, services,
-- processes, commands, kernel parameters and matching (resource/user.go, ...) in Hosts, and
-- addresses, ports, names, interfaces and requests (resource/addr.go, ...) in Networks. What the
-- system answers is a parameter. Resource/Numbers is strconv.Atoi, the conversion of the standard
-- library that deprecateAtoI calls, and Resource/Numbers/Texts the texts of ints.
--
-- Matchers models matchers/: the types of matcher and their `Match`, with the leaves that wrap a
-- matcher of gomega as parameters (Leaves). Matchers/Compile is matcherToGomegaMatcher of
-- resource/gomega.go, Matchers/Transforms is type_conversion.go, Matchers/Patterns is
-- have_patterns.go with the regexp package as a parameter, and Matchers/Semver is
-- semver_constraint.go.
--
-- Scheduler models dependency_scheduler.go. Scheduler/Refs is resolveDependencyRef,
-- Scheduler/Cycles the search of detectDependencyCycles, Scheduler/Build is buildSchedule, and
-- Scheduler/Waves the loop of validateWithDependencies; Scheduler/Waves/Verdicts says what it is
-- to send and store, in terms of verdicts alone. A map is a function from texts. The order in
-- which Go ranges over a map is a parameter (RangeOrder), and so is the order in which the workers
-- of a wave finish (Workers). A check is a parameter as well (World): it answers with results, or
-- panics.
--
-- Run models validate.go: the choice between the two schedulers (Run/Validation), and the attempts
-- of ValidateConfig, with the clock and the outcome of each attempt as parameters. Its fuel is the
-- timeout in nanoseconds and two more, since every sleep takes at least one.
--
-- Discovery models discovery_config.go (Entries) and discovery_validate.go: the registers, and
-- what is found under each. The order in which the results arrive is a parameter (Arrival).
--
-- Outputs models what the formats of outputs/ count and the exit codes they answer with. Serve
-- models the health endpoint of serve.go: the verdict and its status code, and in Serve/Requests
-- the requests of processAndEnsureCached and fillCache as steps that interleave, on the cache and
-- the mutex they share. The cache of go-cache is the entry that it holds, which may expire at any
-- time (Event).
--
-- Outputs/Options is the options of the formats (outputs/outputs.go), Outputs/Meta the flattening
-- of `meta:` (outputs/meta.go), on the levels that its depth limit leaves, Serve/Content the
-- negotiation of a content type (serve.go), and Store/Loading the load of a spec, with the
-- discovery in front of it (validate.go, discovery_load.go).
--
-- Guard models toplevel_guard.go: levenshtein row by row, suggestKey, and checkTopLevelKeys on the
-- nodes of the document. The parser, of go.yaml.in/yaml/v3, and sort.Strings are parameters.
--
-- Store models store.go and syver_config.go: reading a spec (Store), the formats (Store/Formats),
-- the merge of the files that it includes (Store/Merge), with the list of these as Store/Layers,
-- and the variables of the templates with the cache of their files (Store/Vars). The parsers of
-- JSON and YAML, mergo and the file system are parameters. The merge runs on the levels that the
-- depth limit leaves, 49 from the top.
--
-- The search for cycles runs on as much fuel as the schedule has references, and the loop of the
-- waves on as much as it has items, and one more: the search enters a reference once, and each pass
-- of the loop completes an item. The times and `meta:` of a
-- result, the text that the formats print and the log are not modelled, and neither are the probes
-- of the operating system, what a matcher reports of a mismatch and the templates.
pub mod Prelude
pub mod Value
pub mod Resource
pub mod Scheduler
pub mod Outputs
pub mod Serve
pub mod Guard
pub mod Run
pub mod Discovery
pub mod Matchers
pub mod Store
